-- ===== src/Systeminfo/Version.antt =====
-- The version of the system and the release that it is converted to (convert2rhel/systeminfo.py).
use convert2rhel.Prelude.{
  ℕ, zero, suc, String, ◌<>◌, Bool, ◌&&◌, ◌||◌, Option, none, some, List, [], ◌∷◌, given, contains,
  ◌==◌, nat_eq, string_eq, Result, ok, raise, system_exit, index_error, if◌then◌else◌,
}
use convert2rhel.Prelude.Dict.{Dict, lookup}
use convert2rhel.Prelude.Text.{split_all}

pub record Version : Type 0 where
  pub major : ℕ
  pub minor : Option ℕ

-- The methods of `str` and the function `int`
pub record Texts : Type 0 where
  pub str : ℕ → String
  pub int : String → Result ℕ
  -- `text.split()`, `text.lower()` and `text.strip()`
  pub words : String → List String
  pub lower : String → String
  pub strip : String → String
  -- The name, the full version and the identifier of the distribution in /etc/system-release
  pub match_release : String → Option (String × String × Option String)

abbrev pub release_ver_mapping : Dict String String
release_ver_mapping =
    ("9.10", "9.10")
    ∷ ("9.9", "9.9")
    ∷ ("9.8", "9.8")
    ∷ ("9.7", "9.7")
    ∷ ("9.6", "9.6")
    ∷ ("9.5", "9.5")
    ∷ ("9.4", "9.4")
    ∷ ("9.3", "9.3")
    ∷ ("9.2", "9.2")
    ∷ ("9.1", "9.1")
    ∷ ("9.0", "9.0")
    ∷ ("9", "9")
    ∷ ("8.10", "8.10")
    ∷ ("8.9", "8.9")
    ∷ ("8.8", "8.8")
    ∷ ("8.7", "8.7")
    ∷ ("8.6", "8.6")
    ∷ ("8.5", "8.5")
    ∷ ("8.4", "8.4")
    ∷ ("8", "8")
    ∷ ("7.9", "7Server")
    ∷ ("2", "7Server")
    ∷ []

abbrev pub eus_minor_versions : List String
eus_minor_versions = "8.8" ∷ []

module _ (texts : Texts) where
  -- What `repr` shows behind the major version: a minor version that is true
  abbrev pub minor_text : Option ℕ → String
  minor_text none = ""
  minor_text (some zero) = ""
  minor_text (some (suc n)) = "." <> texts.str (suc n)

  -- `Version.__repr__`
  unfoldable pub version_text : Version → String
  version_text v = texts.str v.major <> minor_text v.minor

  -- `RELEASE_VER_MAPPING[repr(self.version)]`, or the end of the program
  abbrev pub mapped : Option String → Result String
  mapped none = raise system_exit
  mapped (some releasever) = ok releasever

  abbrev pub configured_or : Option String → Result String → Result String
  configured_or none r = r
  configured_or (some cfg) r = if given (some cfg) then ok cfg else r

  -- `_get_releasever`, with the option of the configuration file
  unfoldable pub get_releasever : Option String → Version → Result String
  get_releasever cfg v = configured_or cfg (mapped (lookup (version_text v) release_ver_mapping))

  unfoldable pub corresponds_to_rhel_eus_release : Bool → Version → Bool
  corresponds_to_rhel_eus_release eus v = eus && contains eus_minor_versions (version_text v)

  unfoldable pub corresponds_to_rhel_els_release : Bool → Version → Bool
  corresponds_to_rhel_els_release els v = els && (v.major == 7 || v.major == 2)

  pub record Release : Type 0 where
    pub name : String
    pub id : String
    pub version : Version
    pub distribution_id : Option String
    pub full_version : String

  abbrev minor_number : List String → Result (Option ℕ)
  minor_number [] = ok none
  minor_number (minor ∷ rest) = elim (texts.int minor) [ ok n ↦ ok (some n) | raise e ↦ raise e ]

  -- `int` of the first number and of the second, where there is one
  unfoldable pub version_of : List String → Result Version
  version_of [] = raise (index_error "list index out of range")
  version_of (major ∷ rest) = elim (texts.int major) [
    | raise e ↦ raise e
    | ok m ↦ elim (minor_number rest) [
      | raise e ↦ raise e
      | ok n ↦ ok (record { major = m; minor = n })
    ]
  ]

  abbrev first_word : List String → Result String
  first_word [] = raise (index_error "list index out of range")
  first_word (word ∷ rest) = ok word

  abbrev as_release : String × String × Option String → Result Release
  as_release (name, full_version, distribution_id) = elim (first_word (texts.words name)) [
    | raise e ↦ raise e
    | ok word ↦ elim (version_of (split_all "." full_version)) [
      | raise e ↦ raise e
      | ok v ↦ ok (record {
        name = name;
        id = texts.lower word;
        version = v;
        distribution_id = distribution_id;
        full_version = full_version;
      })
    ]
  ]

  -- `parse_system_release_content`: an empty dict is `none`.
  unfoldable pub parse_system_release_content : String → Result (Option Release)
  parse_system_release_content content = elim (texts.match_release content) [
    | none ↦ ok none
    | some found ↦ elim (as_release found) [ ok release ↦ ok (some release) | raise e ↦ raise e ]
  ]
