-- ===== src/Packages/Install.antt =====
-- Which kernel is installed (convert2rhel/pkghandler.py).
use convert2rhel.Prelude.{
  String, Bool, true, false, not, ◌&&◌, List, [], ◌∷◌, filter, contains, has_items, string_eq, ok,
  ◌≡◌, refl, fun_ext, arith,
}
use convert2rhel.Packages.Kernels.{
  Kernels, last_or_raise, available_to_install, install, handle_kernels,
}

contains-filter :
    (test : String → Bool) (xs : List String) (k : String)
    → contains (filter test xs) k ≡ true
    → (contains xs k && test k) ≡ true
unfolding filter
contains-filter test [] k h = cc
contains-filter test (x ∷ xs) k h = ground (arith, h, contains-filter test xs k)

last-contains :
    (xs : List String)
    → has_items xs ≡ true
    → (k : String) × (last_or_raise xs ≡ ok k) × (contains xs k ≡ true)
last-contains [] h = cc
last-contains (x ∷ []) h = (x, refl, ground arith)
last-contains (x ∷ y ∷ rest) h =
    let (k, e, m) = last-contains (y ∷ rest) refl in (k, e, ground (arith, m))

handle_kernels-install :
    {W : Type 0} (env : Kernels W) (installed available : List String) (kernel : String)
    → has_items (available_to_install installed available) ≡ true
    → last_or_raise (available_to_install installed available) ≡ ok kernel
    → handle_kernels env installed available ≡ install env kernel
unfolding handle_kernels
handle_kernels-install env installed available kernel h e = fun_ext (λ w. ground (arith, h, e))

-- Where a kernel is available that is not installed, such a kernel is installed by yum, and nothing
-- else is done.
pub handle_kernels-installs_new :
    {W : Type 0} (env : Kernels W) (installed available : List String)
    → has_items (available_to_install installed available) ≡ true
    → (kernel : String) × (contains available kernel ≡ true)
      × (contains installed kernel ≡ false)
      × (handle_kernels env installed available ≡ install env kernel)
unfolding available_to_install
handle_kernels-installs_new env installed available h =
    let (k, e, m) = last-contains (available_to_install installed available) h in
    let both = contains-filter (λ kernel. not (contains installed kernel)) available k m in
    (
      k,
      ground (arith, both),
      ground (arith, both),
      handle_kernels-install env installed available k h e,
    )
