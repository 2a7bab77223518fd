-- ===== src/Packages.antt =====
-- Packages: their names and the lists of them (convert2rhel/pkghandler.py). The package manager,
-- rpm and the classes of characters of regular expressions are parameters.
pub mod Parse
pub mod Compare
pub mod Highest
pub mod Arches
pub mod Kernels
pub mod Laws
pub mod Between
pub mod Printed
pub mod Envra
pub mod Install
mod Tests
use convert2rhel.Prelude.{
  String, ◌<>◌, Bool, true, false, not, ◌&&◌, Option, none, some, List, [], ◌∷◌, ◌++◌, map, filter,
  contains, has_items, given, ◌==◌, string_eq, if◌then◌else◌,
}
use convert2rhel.Prelude.Text.{split_first}

-- `PackageNevra`, of a package that is installed: without an arch for a public key.
pub record PackageNevra : Type 0 where
  pub name : String
  pub epoch : String
  pub version : String
  pub release : String
  pub arch : Option String

-- `PackageInformation`
pub record PackageInformation : Type 0 where
  pub packager : String
  pub vendor : String
  pub nevra : PackageNevra
  pub key_id : Option String
  pub signature : String

-- `str(arch)`, as `format` gives it
abbrev pub arch_text : Option String → String
arch_text none = "None"
arch_text (some arch) = arch

-- `get_pkg_nvra`
unfoldable pub get_pkg_nvra : PackageNevra → String
get_pkg_nvra nevra =
    nevra.name
    <> ("-" <> (nevra.version <> ("-" <> (nevra.release <> ("." <> arch_text nevra.arch)))))

-- The epoch with its colon, or nothing for epoch 0.
abbrev pub epoch_text : String → Bool → String
epoch_text epoch include_zero_epoch =
    if epoch == "0" && not include_zero_epoch then "" else epoch <> ":"

-- `get_pkg_nevra`, by the type of the package manager
unfoldable pub get_pkg_nevra : (is_yum : Bool) → PackageNevra → (include_zero_epoch : Bool) → String
get_pkg_nevra true nevra include_zero_epoch =
    epoch_text nevra.epoch include_zero_epoch
    <> (nevra.name
        <> ("-" <> (nevra.version <> ("-" <> (nevra.release <> ("." <> arch_text nevra.arch))))))
get_pkg_nevra false nevra include_zero_epoch =
    nevra.name
    <> ("-"
        <> (epoch_text nevra.epoch include_zero_epoch
            <> (nevra.version <> ("-" <> (nevra.release <> ("." <> arch_text nevra.arch))))))

-- `get_pkg_nevras`
unfoldable pub get_pkg_nevras : Bool → List PackageInformation → List String
get_pkg_nevras is_yum pkgs = map (λ pkg. get_pkg_nevra is_yum pkg.nevra false) pkgs

-- `value if value else "N/A"`
abbrev pub or_not_available : String → String
or_not_available s = if s == "" then "N/A" else s

-- `get_packager`: what stands before a bracket; `rstrip` is a parameter.
unfoldable pub get_packager : (String → String) → PackageInformation → String
get_packager rstrip pkg = elim (split_first "<" (or_not_available pkg.packager)) [
  | none ↦ rstrip (or_not_available pkg.packager)
  | some (before, behind) ↦ rstrip before
]

-- `get_vendor`
unfoldable pub get_vendor : PackageInformation → String
get_vendor pkg = or_not_available pkg.vendor

-- `pkg.key_id in key_ids`
abbrev pub is_signed_by : List String → PackageInformation → Bool
is_signed_by key_ids pkg = elim pkg.key_id [ none ↦ false | some key_id ↦ contains key_ids key_id ]

-- `get_installed_pkgs_by_key_id`, of what `get_installed_pkg_information` gives, and so
-- `get_system_packages_for_replacement` of the keys of the original system.
unfoldable pub get_installed_pkgs_by_key_id : List String → List PackageInformation → List String
get_installed_pkgs_by_key_id key_ids pkgs =
    map (λ pkg. pkg.nevra.name <> ("." <> arch_text pkg.nevra.arch))
      (filter (is_signed_by key_ids) pkgs)

abbrev pub is_foreign : List String → PackageInformation → Bool
is_foreign key_ids pkg = not (is_signed_by key_ids pkg) && not (pkg.nevra.name == "gpg-pubkey")

-- `get_installed_pkgs_w_different_key_id`
unfoldable pub get_installed_pkgs_w_different_key_id :
    List String → List PackageInformation → List PackageInformation
get_installed_pkgs_w_different_key_id [] pkgs = []
get_installed_pkgs_w_different_key_id (key ∷ keys) pkgs = filter (is_foreign (key ∷ keys)) pkgs

-- `get_third_party_pkgs`
unfoldable pub get_third_party_pkgs :
    (orig_os rhel : List String) → List PackageInformation → List PackageInformation
get_third_party_pkgs orig_os rhel pkgs =
    get_installed_pkgs_w_different_key_id (orig_os ++ rhel) pkgs

-- `get_packages_to_remove`, with what `get_installed_pkg_information` gives for a name
unfoldable pub get_packages_to_remove :
    (rhel : List String)
    → (String → List PackageInformation)
    → List String
    → List PackageInformation
get_packages_to_remove rhel installed [] = []
get_packages_to_remove rhel installed (pkg ∷ pkgs) =
    get_installed_pkgs_w_different_key_id rhel (installed pkg)
    ++ get_packages_to_remove rhel installed pkgs
