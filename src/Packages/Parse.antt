-- ===== src/Packages/Parse.antt =====
-- Parsing the name of a package (convert2rhel/pkghandler.py): parse_pkg_string and what it calls.
use convert2rhel.Prelude.{
  ℕ, ◌+◌, ◌-◌, String, ◌<>◌, Bool, true, false, not, ◌&&◌, ◌||◌, Option, none, some, List, [], ◌∷◌,
  any, contains, ◌==◌, string_eq, nat_eq, Result, ok, raise, value_error, ◌>>=◌, ◌>>◌, require,
  if◌then◌else◌,
}
use convert2rhel.Prelude.Text.{
  Char, same_char, split_first, split_last, split_all, ends_with, count,
}

-- What a package name is parsed to: name, epoch, version, release, arch.
pub record Components : Type 0 where
  pub name : Option String
  pub epoch : Option String
  pub version : Option String
  pub release : Option String
  pub arch : Option String

-- What hawkey takes a text for.
pub record Possibility : Type 0 where
  pub name : Option String
  pub epoch : Option ℕ
  pub version : Option String
  pub release : Option String
  pub arch : Option String

pub record Manager : Type 0 where
  -- `pkgmanager.TYPE == "yum"`
  pub is_yum : Bool
  -- `\d` and `\s`
  pub is_digit : Char → Bool
  pub is_space : Char → Bool
  -- `splitFilename`: name, version, release, epoch, arch
  pub split_filename : String → (String × (String × (String × (String × String))))
  -- `get_nevra_possibilities` of the forms NEVRA and NEVR
  pub possibilities : String → List Possibility
  -- `str(epoch)`
  pub str : ℕ → String

-- `PKG_ARCH`
abbrev pub pkg_arch : List String
pkg_arch = "x86_64" ∷ "s390x" ∷ "i686" ∷ "i86" ∷ "ppc64le" ∷ "aarch64" ∷ "noarch" ∷ []

-- `value or None`, of a text
abbrev pub or_none : String → Option String
or_none s = if s == "" then none else some s

-- `^[...]+$` behind the first character: `$` also stands before a last newline.
unfoldable pub class_to_end : (Char → Bool) → String → Bool
class_to_end test String.[] = true
class_to_end test (String.◌∷◌ c s) =
    (test c && class_to_end test s) || (same_char c "\n" && s == "")

-- `^[...]+$`
unfoldable pub matches_class : (Char → Bool) → String → Bool
matches_class test String.[] = false
matches_class test (String.◌∷◌ c s) = test c && class_to_end test s

module _ (manager : Manager) where
  -- `\d+:`, behind digits or not
  unfoldable pub digits_colon : (seen : Bool) → String → Bool
  digits_colon seen String.[] = false
  digits_colon seen (String.◌∷◌ c s) =
      (manager.is_digit c && digits_colon true s) || (seen && same_char c ":")

  -- `ENVRA_ENVR_FORMAT.findall(pkg)` finds something.
  unfoldable pub is_envra : String → Bool
  is_envra pkg = digits_colon false pkg

  -- `NEVRA_NEVR_FORMAT.findall(pkg)` finds something.
  unfoldable pub is_nevra : String → Bool
  is_nevra String.[] = false
  is_nevra (String.◌∷◌ c s) = (same_char c "-" && digits_colon false s) || is_nevra s

  abbrev pub name_matches : String → Bool
  name_matches s = matches_class (λ c. not (manager.is_space c)) s

  abbrev pub epoch_matches : String → Bool
  epoch_matches s = matches_class manager.is_digit s

  -- `PKG_VERSION` and `PKG_RELEASE`
  abbrev pub version_matches : String → Bool
  version_matches s = matches_class (λ c. not (manager.is_space c) && not (same_char c "-")) s

  -- A field that has to be there, and one that may be missing.
  abbrev pub is_field : (String → Bool) → Option String → Bool
  is_field test none = false
  is_field test (some s) = test s

  abbrev pub is_field_or_none : (String → Bool) → Option String → Bool
  is_field_or_none test none = true
  is_field_or_none test (some s) = test s

  unfoldable pub fields_match : Components → Bool
  fields_match c =
      is_field name_matches c.name
      && is_field_or_none epoch_matches c.epoch
      && is_field version_matches c.version
      && is_field version_matches c.release
      && is_field_or_none (contains pkg_arch) c.arch

  -- The separators of the fields that are there, but one.
  abbrev pub field_length : Option String → ℕ
  field_length none = 0
  field_length (some s) = count s

  abbrev pub missing : Option String → ℕ
  missing none = 1
  missing (some s) = 0

  -- The count starts from 4, and is less for each field that is missing; name, version and release
  -- are there by then.
  unfoldable pub parsed_length : Components → ℕ
  parsed_length c =
      field_length c.name
      + field_length c.epoch
      + field_length c.version
      + field_length c.release
      + field_length c.arch
      + (4 - (missing c.epoch + missing c.arch))

  -- `_validate_parsed_fields`
  unfoldable pub validate_parsed_fields : String → Components → Result (Unit {0})
  validate_parsed_fields pkg c =
      require (fields_match c) value_error >> require (count pkg == parsed_length c) value_error

  -- The branch of `_parse_pkg_with_yum` for NEVRA and NEVR
  unfoldable pub split_release : String → Result (String × Option String)
  split_release release_arch =
      if any (λ arch. ends_with arch release_arch) pkg_arch
      then (elim (split_last "." release_arch) [
        | none ↦ raise value_error
        | some (release, arch) ↦ ok (release, or_none arch)
      ])
      else ok (release_arch, none)

  unfoldable pub parse_nevra : String → Result Components
  parse_nevra pkg = elim (split_last "-" pkg) [
    | none ↦ raise value_error
    | some (front, release_arch) ↦ elim (split_last "-" front) [
      | none ↦ raise value_error
      | some (name, epoch_version) ↦ elim (split_first ":" epoch_version) [
        | none ↦ raise value_error
        | some (epoch, version) ↦ split_release release_arch >>= λ (release, arch). ok (record {
          name = or_none name;
          epoch = or_none epoch;
          version = or_none version;
          release = or_none release;
          arch = arch;
        })
      ]
    ]
  ]

  -- The branch for the other formats
  unfoldable pub parse_other : String → Components
  parse_other pkg =
      let (name, (version, (release, (epoch, arch)))) = manager.split_filename pkg in
      if contains pkg_arch arch
      then record {
        name = or_none name;
        epoch = or_none epoch;
        version = or_none version;
        release = or_none release;
        arch = some arch;
      }
      else record {
        name = or_none name;
        epoch = or_none epoch;
        version = or_none version;
        release = or_none (release <> ("." <> arch));
        arch = none;
      }

  -- `_parse_pkg_with_yum`
  unfoldable pub parse_pkg_with_yum : String → Result Components
  parse_pkg_with_yum pkg = if is_nevra pkg then parse_nevra pkg else ok (parse_other pkg)

  -- The loop of `_parse_pkg_with_dnf`, with the last possibility that has no arch
  unfoldable pub choose : List Possibility → Option Possibility → Option Possibility
  choose [] no_arch_data = no_arch_data
  choose (nevra ∷ rest) no_arch_data = elim nevra.arch [
    | none ↦ choose rest (some nevra)
    | some arch ↦ if contains pkg_arch arch then some nevra else choose rest no_arch_data
  ]

  -- `epoch or nevra.epoch`, as a text
  abbrev pub epoch_or : Option String → Option ℕ → Option String
  epoch_or none none = none
  epoch_or none (some n) = some (manager.str n)
  epoch_or (some e) other = some e

  -- The epoch in front, and what `pkg.split(":")` has behind it.
  abbrev pub second : List String → String
  second [] = ""
  second (x ∷ []) = ""
  second (x ∷ y ∷ rest) = y

  abbrev pub first : List String → String
  first [] = ""
  first (x ∷ rest) = x

  unfoldable pub split_epoch : String → (Option String × String)
  split_epoch pkg =
      if is_envra pkg
      then (some (first (split_all ":" pkg)), second (split_all ":" pkg))
      else (none, pkg)

  -- `_parse_pkg_with_dnf`
  unfoldable pub parse_pkg_with_dnf : String → Result Components
  parse_pkg_with_dnf pkg =
      let (epoch, rest) = split_epoch pkg in
      elim (choose (manager.possibilities rest) none) [
        | none ↦ raise value_error
        | some nevra ↦ ok (record {
          name = nevra.name;
          epoch = epoch_or epoch nevra.epoch;
          version = nevra.version;
          release = nevra.release;
          arch = nevra.arch;
        })
      ]

  -- `parse_pkg_string`
  unfoldable pub parse_pkg_string : String → Result Components
  parse_pkg_string pkg = do
    components ← (if manager.is_yum then parse_pkg_with_yum pkg else parse_pkg_with_dnf pkg)
    validate_parsed_fields pkg components
    ok components
