-- ===== src/Packages/Compare.antt =====
-- Comparing the versions of packages (convert2rhel/pkghandler.py).
use convert2rhel.Prelude.{
  String, Bool, true, false, not, ◌&&◌, Option, none, some, List, [], ◌∷◌, given, ◌==◌, string_eq,
  Result, ok, raise, value_error, ◌>>=◌, ◌>>◌, require, if◌then◌else◌,
}
use convert2rhel.Packages.Parse.{Components, Manager, parse_pkg_string}

-- -1, 0 and 1
pub data Comparison : Type 0 where
  older : Comparison
  same : Comparison
  newer : Comparison

-- Epoch, version, release
abbrev pub Evr : Type 0
Evr = Option String × (Option String × Option String)

abbrev pub evr : Components → Evr
evr c = (c.epoch, (c.version, c.release))

-- `==`, of fields that may be None
abbrev pub same_field : Option String → Option String → Bool
same_field none none = true
same_field (some s) (some t) = s == t
same_field _ _ = false

-- What the code asks of the arches. The first one is in a list of its own, which is true.
unfoldable pub arches_clash : Option String → Option String → Bool
arches_clash arch1 arch2 = not (same_field arch1 arch2) && given arch2

-- `compare_package_versions == 1`
abbrev pub is_newer : Comparison → Bool
is_newer newer = true
is_newer _ = false

-- Here `rpm.labelCompare` is a parameter.
module _ (manager : Manager) (label_compare : Evr → Evr → Comparison) where
  -- `compare_package_versions`
  unfoldable pub compare_package_versions : String → String → Result Comparison
  compare_package_versions version1 version2 = do
    c1 ← parse_pkg_string manager version1
    c2 ← parse_pkg_string manager version2
    require (same_field c1.name c2.name) value_error
    require (not (arches_clash c1.arch c2.arch)) value_error
    ok (label_compare (evr c1) (evr c2))

  -- The loop of `get_highest_package_version`
  unfoldable pub highest_of : String → List String → Result String
  highest_of highest [] = ok highest
  highest_of highest (nevra ∷ rest) = compare_package_versions nevra highest >>= λ c.
      highest_of (if is_newer c then nevra else highest) rest

  -- `get_highest_package_version`, of the list
  unfoldable pub get_highest_package_version : List String → Result String
  get_highest_package_version [] = raise value_error
  get_highest_package_version (first ∷ rest) = highest_of first rest
