-- ===== src/Packages/Highest.antt =====
-- What get_highest_package_version returns (convert2rhel/pkghandler.py).
use convert2rhel.Prelude.{
  String, true, false, Option, none, some, List, [], ◌∷◌, string_eq, ok, ◌≡◌, refl, arith, All,
  Bool-cases, inl, inr,
}
use mathlib.Core.List.{Mem, mem-cons_self, mem-cons_of_mem}
use mathlib.Core.List.Perm
use convert2rhel.Packages.Parse.{Components, Manager, parse_pkg_string}
use convert2rhel.Packages.Compare.{
  Comparison, Evr, evr, same_field, arches_clash, is_newer, compare_package_versions, highest_of,
  get_highest_package_version,
}

-- The order that `rpm.labelCompare` is documented to be, as far as it matters here.
pub record IsVersionOrder (label_compare : Evr → Evr → Comparison) : Type 0 where
  pub irreflexive : (a : Evr) → is_newer (label_compare a a) ≡ false
  pub asymmetric :
      (a b : Evr) → is_newer (label_compare a b) ≡ true → is_newer (label_compare b a) ≡ false
  pub transitive :
      (a b c : Evr)
      → is_newer (label_compare a b) ≡ false
      → is_newer (label_compare b c) ≡ false
      → is_newer (label_compare a c) ≡ false

same_field_self : (f : Option String) → same_field f f ≡ true
same_field_self none = refl
same_field_self (some s) = ground arith

module _ (manager : Manager) (label_compare : Evr → Evr → Comparison) where
  -- A package of a name and an arch
  pub record IsPackage (name arch : Option String) (pkg : String) : Type 0 where
    pub components : Components
    pub parsed : parse_pkg_string manager pkg ≡ ok components
    pub of_name : components.name ≡ name
    pub of_arch : components.arch ≡ arch

  -- The comparison is made, and the first is not newer.
  pub record IsNotNewer (pkg other : String) : Type 0 where
    pub comparison : Comparison
    pub compared : compare_package_versions manager label_compare pkg other ≡ ok comparison
    pub not_newer : is_newer comparison ≡ false

  module _ (name arch : Option String) where
    compare-IsPackage :
        (pkg other : String) (p : IsPackage name arch pkg) (q : IsPackage name arch other)
        → compare_package_versions manager label_compare pkg other
          ≡ ok (label_compare (evr p.components) (evr q.components))
    unfolding compare_package_versions arches_clash
    compare-IsPackage pkg other p q =
        let same_name : same_field p.components.name q.components.name ≡ true =
          rw (p.of_name, q.of_name) (same_field_self name) in
        let same_arch : same_field p.components.arch q.components.arch ≡ true =
          rw (p.of_arch, q.of_arch) (same_field_self arch) in
        ground (arith, p.parsed, q.parsed, same_name, same_arch)

    label_lem :
        (pkg other : String) (p : IsPackage name arch pkg) (q : IsPackage name arch other)
        → IsNotNewer pkg other
        → is_newer (label_compare (evr p.components) (evr q.components)) ≡ false
    label_lem pkg other p q h = cc (compare-IsPackage pkg other p q, h.compared, h.not_newer)

    label-IsNotNewer :
        (pkg other : String) (p : IsPackage name arch pkg) (q : IsPackage name arch other)
        → is_newer (label_compare (evr p.components) (evr q.components)) ≡ false
        → IsNotNewer pkg other
    label-IsNotNewer pkg other p q h = record {
      comparison = label_compare (evr p.components) (evr q.components);
      compared = compare-IsPackage pkg other p q;
      not_newer = h;
    }

    IsNotNewer-trans :
        (x y z : String)
        → IsVersionOrder label_compare
        → (p : IsPackage name arch x) (q : IsPackage name arch y) (s : IsPackage name arch z)
        → is_newer (label_compare (evr p.components) (evr q.components)) ≡ false
        → IsNotNewer y z
        → IsNotNewer x z
    IsNotNewer-trans x y z order p q s h k = label-IsNotNewer x z p s (
        order.transitive (evr p.components) (evr q.components) (evr s.components) h
          (label_lem y z q s k))

    -- What is claimed of the loop.
    pub record IsHighest (first : String) (rest : List String) (r : String) : Type 0 where
      pub package_of : IsPackage name arch r
      pub returned : highest_of manager label_compare first rest ≡ ok r
      pub member : Mem r (first ∷ rest)
      pub above_first : IsNotNewer first r
      pub above : All (λ pkg. IsNotNewer pkg r) rest

    skip_first :
        (first n : String) (rest : List String) (r : String)
        → Mem r (first ∷ rest)
        → Mem r (first ∷ n ∷ rest)
    skip_first first n rest r m = Perm.subset (Perm.swap first n rest) r (mem-cons_of_mem n m)

    loop-IsHighest :
        IsVersionOrder label_compare
        → (first : String) (rest : List String) → IsPackage name arch first
        → All (IsPackage name arch) rest
        → (r : String) × IsHighest first rest r
    unfolding highest_of
    loop-IsHighest order first [] p ps = (
      first,
      record {
        package_of = p;
        returned = refl;
        member = mem-cons_self;
        above_first = label-IsNotNewer first first p p (order.irreflexive (evr p.components));
        above = tt;
      },
    )
    loop-IsHighest order first (n ∷ rest) p ps =
        let a = evr (ps.0.components) in
        let b = evr p.components in
        let compared = compare-IsPackage n first (ps.0) p in
        elim (Bool-cases (is_newer (label_compare a b))) [
          | inl e ↦
              let (r, h) = loop-IsHighest order n rest (ps.0) (ps.1) in
              (
                r,
                record {
                  package_of = h.package_of;
                  returned = rw compared (rw e h.returned);
                  member = mem-cons_of_mem first h.member;
                  above_first =
                      IsNotNewer-trans first n r order p (ps.0) h.package_of
                        (order.asymmetric a b e) h.above_first;
                  above = (h.above_first, h.above);
                },
              )
          | inr e ↦
              let (r, h) = loop-IsHighest order first rest p (ps.1) in
              (
                r,
                record {
                  package_of = h.package_of;
                  returned = rw compared (rw e h.returned);
                  member = skip_first first n rest r h.member;
                  above_first = h.above_first;
                  above = (
                    IsNotNewer-trans n first r order (ps.0) p h.package_of e h.above_first,
                    h.above,
                  );
                },
              )
        ]

  -- Of packages of one name and arch, at least one, the package that is returned is one of them, and
  -- none of them is newer: nothing is raised, and each of them is compared with it.
  pub get_highest_package_version-highest :
      (name arch : Option String) (first : String) (rest : List String)
      → IsVersionOrder label_compare
      → All (IsPackage name arch) (first ∷ rest)
      → (r : String) × (get_highest_package_version manager label_compare (first ∷ rest) ≡ ok r)
        × Mem r (first ∷ rest)
        × All (λ pkg. IsNotNewer pkg r) (first ∷ rest)
  unfolding get_highest_package_version
  get_highest_package_version-highest name arch first rest order ps =
      let (r, h) = loop-IsHighest name arch order first rest (ps.0) (ps.1) in
      (r, h.returned, h.member, (h.above_first, h.above))
