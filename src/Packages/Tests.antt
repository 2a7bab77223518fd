-- ===== src/Packages/Tests.antt =====
-- Runs under yum, on characters that are told by their code (convert2rhel/pkghandler.py).
use convert2rhel.Prelude.{
  ℕ, String, ◌<>◌, true, false, ◌&&◌, Option, none, some, List, [], ◌∷◌, filter, contains,
  string_eq, nat_eq, ltb, leb, All, ok, raise, value_error, if◌then◌else◌, ◌≡◌, refl, arith,
}
use Prim.Native.Char.{code}
use convert2rhel.Prelude.Text.{has_char, all_chars, split_first, split_last, split_all, ends_with}
use mathlib.Core.List.{Mem}
use convert2rhel.Packages.{get_pkg_nevra}
use convert2rhel.Packages.Parse.{
  Components, Manager, class_to_end, matches_class, digits_colon, is_envra, is_nevra, fields_match,
  parsed_length, validate_parsed_fields, split_release, parse_nevra, parse_other,
  parse_pkg_with_yum, choose, split_epoch, parse_pkg_with_dnf, parse_pkg_string,
}
use convert2rhel.Packages.Compare.{
  Comparison, older, same, newer, Evr, arches_clash, is_newer, compare_package_versions, highest_of,
  get_highest_package_version,
}
use convert2rhel.Packages.Printed.{IsDigits, IsName, parse_pkg_string-printed}
use convert2rhel.Packages.Envra.{IsColonless, parse_pkg_string-get_pkg_nevra}
use convert2rhel.Packages.Highest.{
  IsVersionOrder, IsPackage, IsNotNewer, get_highest_package_version-highest,
}
use convert2rhel.Packages.Arches.{compare_package_versions-arch_order}
use convert2rhel.Packages.Kernels.{Kernels, available_to_install, handle_kernels, install}
use convert2rhel.Packages.Install.{handle_kernels-installs_new}

program : Unit {0}
unfolding has_char all_chars split_first split_last split_all ends_with get_pkg_nevra class_to_end
    matches_class digits_colon is_envra is_nevra fields_match parsed_length validate_parsed_fields
    split_release parse_nevra parse_other parse_pkg_with_yum choose split_epoch parse_pkg_with_dnf
    parse_pkg_string arches_clash compare_package_versions highest_of get_highest_package_version
    available_to_install handle_kernels filter string_eq nat_eq
program = tt

abbrev manager : Manager
manager = record {
  is_yum = true;
  is_digit = λ c. leb 48 (code c) && leb (code c) 57;
  is_space = λ c. leb (code c) 32;
  split_filename = λ s. ("kernel", ("5.14", ("1", ("", "el7"))));
  possibilities = λ s. [];
  str = λ n. "0";
}

abbrev of_version : String → Components
of_version version = record {
  name = some "kernel";
  epoch = some "0";
  version = some version;
  release = some "1";
  arch = some "noarch";
}

digits : IsDigits manager
digits = record { colon = refl; dash = refl }

kernel-IsName : IsName manager "kernel" "0" "5" "1" "noarch"
unfolding program
kernel-IsName = record {
  name_class = record { some_char = refl; every_char = refl };
  epoch_class = record { some_char = refl; every_char = refl };
  version_class = record { some_char = refl; every_char = refl };
  release_class = record { some_char = refl; every_char = refl };
  known_arch = refl;
}

parse_pkg_string-printed_test : parse_pkg_string manager "kernel-0:5-1.noarch" ≡ ok (of_version "5")
unfolding program
parse_pkg_string-printed_test =
    parse_pkg_string-printed manager "kernel" "0" "5" "1" "noarch" refl digits kernel-IsName

-- `splitFilename` of a name with an epoch in front
abbrev split_epoch_first : String → (String × (String × (String × (String × String))))
split_epoch_first s = elim (split_first ":" s) [
  | none ↦ (s, ("", ("", ("", ""))))
  | some (epoch, rest) ↦ elim (split_last "." rest) [
    | none ↦ (rest, ("", ("", (epoch, ""))))
    | some (front, arch) ↦ elim (split_last "-" front) [
      | none ↦ (front, ("", ("", (epoch, arch))))
      | some (name_version, release) ↦ elim (split_last "-" name_version) [
        | none ↦ (name_version, ("", (release, (epoch, arch))))
        | some (name, version) ↦ (name, (version, (release, (epoch, arch))))
      ]
    ]
  ]
]

abbrev yum_manager : Manager
yum_manager = record manager { split_filename = split_epoch_first }

yum_digits : IsDigits yum_manager
yum_digits = record { colon = refl; dash = refl }

yum_kernel-IsName : IsName yum_manager "kernel" "0" "5" "1" "noarch"
unfolding program
yum_kernel-IsName = record {
  name_class = record { some_char = refl; every_char = refl };
  epoch_class = record { some_char = refl; every_char = refl };
  version_class = record { some_char = refl; every_char = refl };
  release_class = record { some_char = refl; every_char = refl };
  known_arch = refl;
}

yum_kernel-IsColonless :
    IsColonless yum_manager "kernel" "0" "5" "1" "noarch" yum_digits yum_kernel-IsName
unfolding program
yum_kernel-IsColonless = record {
  in_name = refl;
  in_version = refl;
  in_release = refl;
  in_arch = refl;
}

parse_pkg_string-get_pkg_nevra_example :
    parse_pkg_string yum_manager "0:kernel-5-1.noarch" ≡ ok (of_version "5")
unfolding program
parse_pkg_string-get_pkg_nevra_example =
    parse_pkg_string-get_pkg_nevra yum_manager "kernel" "0" "5" "1" "noarch" yum_digits
      yum_kernel-IsName yum_kernel-IsColonless refl refl

without_arch :
    parse_pkg_string manager "kernel-0:5-1" ≡ ok (record (of_version "5") { arch = none })
unfolding program
without_arch = refl

no_name : parse_pkg_string manager "kernel-0:5" ≡ raise value_error
unfolding program
no_name = refl

-- Versions of equal length, by the length: the order of numbers stands in for that of rpm.
abbrev digit_of : Option String → ℕ
digit_of none = 0
digit_of (some String.[]) = 0
digit_of (some (String.◌∷◌ c s)) = code c

abbrev number_order : ℕ → ℕ → Comparison
number_order m n = if ltb n m then newer else if ltb m n then older else same

abbrev label_compare : Evr → Evr → Comparison
label_compare (e, (v, r)) (e', (v', r')) = number_order (digit_of v) (digit_of v')

number_order_self : (m : ℕ) → is_newer (number_order m m) ≡ false
number_order_self m = ground arith

number_order_asymmetric :
    (m n : ℕ) → is_newer (number_order m n) ≡ true → is_newer (number_order n m) ≡ false
number_order_asymmetric m n h = ground (arith, h)

number_order_trans :
    (l m n : ℕ)
    → is_newer (number_order l m) ≡ false
    → is_newer (number_order m n) ≡ false
    → is_newer (number_order l n) ≡ false
number_order_trans l m n h k = ground (arith, h, k)

order : IsVersionOrder label_compare
order = record {
  irreflexive = λ (e, (v, r)). number_order_self (digit_of v);
  asymmetric = λ (e, (v, r)) (e', (v', r')) h. number_order_asymmetric (digit_of v) (digit_of v') h;
  transitive = λ (e, (v, r)) (e', (v', r')) (e'', (v'', r'')) h k.
      number_order_trans (digit_of v) (digit_of v') (digit_of v'') h k;
}

abbrev versions : List String
versions = "kernel-0:6-1.noarch" ∷ "kernel-0:4-1.noarch" ∷ []

is_kernel :
    (v : String)
    → parse_pkg_string manager ("kernel-0:" <> (v <> "-1.noarch")) ≡ ok (of_version v)
    → IsPackage manager label_compare
        (some "kernel")
        (some "noarch")
        ("kernel-0:" <> (v <> "-1.noarch"))
is_kernel v e = record { components = of_version v; parsed = e; of_name = refl; of_arch = refl }

get_highest_package_version-highest_example :
    (r : String) × (get_highest_package_version manager label_compare
        ("kernel-0:5-1.noarch" ∷ versions)
      ≡ ok r)
    × Mem r ("kernel-0:5-1.noarch" ∷ versions)
    × All (λ pkg. IsNotNewer manager label_compare pkg r) ("kernel-0:5-1.noarch" ∷ versions)
unfolding program
get_highest_package_version-highest_example =
    get_highest_package_version-highest manager label_compare (some "kernel") (some "noarch")
      "kernel-0:5-1.noarch" versions order
      (is_kernel "5" refl, (is_kernel "6" refl, (is_kernel "4" refl, tt)))

highest_is_six :
    get_highest_package_version manager label_compare ("kernel-0:5-1.noarch" ∷ versions)
    ≡ ok "kernel-0:6-1.noarch"
unfolding program
highest_is_six = refl

compare_package_versions-arch_order_test :
    (compare_package_versions manager label_compare "kernel-0:5-1" "kernel-0:6-1.noarch"
      ≡ raise value_error)
    × (compare_package_versions manager label_compare "kernel-0:6-1.noarch" "kernel-0:5-1"
        ≡ ok newer)
unfolding program
compare_package_versions-arch_order_test =
    compare_package_versions-arch_order manager label_compare "kernel-0:5-1" "kernel-0:6-1.noarch"
      (record (of_version "5") { arch = none }) (of_version "6") "kernel" "noarch" refl refl refl
      refl refl refl refl

-- A world that is the list of the commands so far.
abbrev kernels : Kernels (List String)
kernels = record {
  get_kernel_availability = λ w. (ok ([], []), w);
  remove_pkgs = λ pkgs w. (ok tt, "remove" ∷ w);
  call_yum_cmd = λ command args w. (ok tt, command ∷ w);
  ask_to_continue = λ w. (ok tt, w);
  get_enabled_rhel_repos = [];
  download_pkg = λ pkg repos w. (ok none, w);
  rpm_replace = λ path w. (ok 0, w);
  is_file = λ path w. true;
  is_not_empty = λ path w. true;
}

new_kernel_is_installed :
    (kernel : String) × (contains ("5" ∷ "6" ∷ []) kernel ≡ true)
    × (contains ("5" ∷ []) kernel ≡ false)
    × (handle_kernels kernels ("5" ∷ []) ("5" ∷ "6" ∷ []) ≡ install kernels kernel)
unfolding program
new_kernel_is_installed = handle_kernels-installs_new kernels ("5" ∷ []) ("5" ∷ "6" ∷ []) refl
