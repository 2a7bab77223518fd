-- ===== src/Packages/Arches.antt =====
-- Packages with and without an arch are compared in one order only (convert2rhel/pkghandler.py).
use convert2rhel.Prelude.{
  String, true, none, some, truthy, string_eq, ok, raise, value_error, ◌≡◌, arith,
}
use convert2rhel.Packages.Parse.{Components, Manager, parse_pkg_string}
use convert2rhel.Packages.Compare.{Comparison, Evr, evr, arches_clash, compare_package_versions}

-- Of two packages of one name, the first without an arch and the second with one, the comparison
-- raises a ValueError, and that of the second with the first is made.
pub compare_package_versions-arch_order :
    (manager : Manager) (label_compare : Evr → Evr → Comparison) (bare full : String)
    (c d : Components) (name arch : String)
    → parse_pkg_string manager bare ≡ ok c
    → parse_pkg_string manager full ≡ ok d
    → c.name ≡ some name
    → d.name ≡ some name
    → c.arch ≡ none
    → d.arch ≡ some arch
    → truthy arch ≡ true
    → (compare_package_versions manager label_compare bare full ≡ raise value_error)
      × (compare_package_versions manager label_compare full bare
          ≡ ok (label_compare (evr d) (evr c)))
unfolding compare_package_versions arches_clash
compare_package_versions-arch_order manager label_compare bare full c d name arch pc pd nc nd ac ad
      t =
    (ground (arith, pc, pd, nc, nd, ac, ad, t), ground (arith, pc, pd, nc, nd, ac, ad, t))
