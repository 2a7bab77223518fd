-- ===== src/Toolopts/Config.antt =====
-- The configuration files (convert2rhel/toolopts/config.py, BaseConfig and FileConfig). The calls of
-- configparser and os are parameters; what is logged is left out.
use Prim.Native.Nat.{◌/◌, ◌%◌}
use convert2rhel.Prelude.Text.{Char, same_char}
use convert2rhel.Prelude.{
  ℕ, zero, suc, ltb, nat_eq, ◌&&◌, false, String, Bool, Option, none, some, List, [], ◌∷◌, map,
  reverse, filter, has_items, contains, truthy, string_eq, Result, ok, raise, critical_error, other,
  ◌>>=◌, ◌>>◌, require, if◌then◌else◌,
}
use convert2rhel.Prelude.Dict.{Dict, lookup, insert}
use convert2rhel.Toolopts.Values.{Value, nothing, flag, text, truth, Attributes}

-- What the code calls of a `ConfigParser` `C`, and of the system.
pub record Files (C : Type 0) : Type 0 where
  pub expanduser : String → String
  pub exists : String → Bool
  -- `os.stat(path).st_mode`
  pub st_mode : String → Result ℕ
  pub new_parser : C
  pub read : String → C → Result C
  pub sections : C → List String
  pub options : String → C → Result (List String)
  pub get : String → String → C → Result String
  pub getboolean : String → String → C → Result Bool
  pub lower : String → String

-- The digit of a number below eight
unfoldable pub octal_digit : ℕ → Char
octal_digit zero = "0"
octal_digit (suc zero) = "1"
octal_digit (suc (suc zero)) = "2"
octal_digit (suc (suc (suc zero))) = "3"
octal_digit (suc (suc (suc (suc zero)))) = "4"
octal_digit (suc (suc (suc (suc (suc zero))))) = "5"
octal_digit (suc (suc (suc (suc (suc (suc zero)))))) = "6"
octal_digit (suc (suc (suc (suc (suc (suc (suc n))))))) = "7"

-- `oct(n)` from its last character to its first, on a bound of its digits
unfoldable pub oct_backwards : ℕ → ℕ → List Char
oct_backwards zero n = []
oct_backwards (suc bound) n =
    let rest = oct_backwards bound (n / 8) in
    octal_digit (n % 8) ∷ (if ltb n 8 then "o" ∷ "0" ∷ [] else rest)

-- `.endswith("00")` of a text from its last character, with which the last four of it end alike
unfoldable pub ends_with_00 : List Char → Bool
ends_with_00 (c ∷ d ∷ rest) = same_char c "0" && same_char d "0"
ends_with_00 (c ∷ []) = false
ends_with_00 [] = false

-- `oct(mode)[-4:].endswith("00")`: a number has no more digits than itself and one.
unfoldable pub only_owner : ℕ → Bool
only_owner mode = ends_with_00 (oct_backwards (suc (suc mode)) mode)

-- `BaseConfig.set_opts`
unfoldable pub set_supported : Attributes → Attributes → Attributes
set_supported [] self = self
set_supported ((key, value) ∷ opts) self = elim (lookup key self) [
  | none ↦ set_supported opts self
  | some v ↦ set_supported opts (if truth value then insert key value self else self)
]

-- `CONFIG_FILE_MAPPING_OPTIONS`, in the order of the source.
abbrev pub config_file_mapping_options : Dict String (List String)
config_file_mapping_options =
    ("subscription_manager", "username" ∷ "password" ∷ "org" ∷ "activation_key" ∷ [])
    ∷ ("host_metering", "configure_host_metering" ∷ [])
    ∷ (
      "inhibitor_overrides",
      "incomplete_rollback" ∷ "tainted_kernel_module_check_skip" ∷ "allow_older_version"
          ∷ "allow_unavailable_kmods" ∷ "configure_host_metering" ∷ "skip_kernel_currency_check"
          ∷ [],
    )
    ∷ []

abbrev pub boolean_options_headers : List String
boolean_options_headers = "inhibitor_overrides" ∷ []

-- `DEFAULT_CONFIG_FILES`, as the class has it at the start.
abbrev pub default_config_files : List String
default_config_files = "~/.convert2rhel.ini" ∷ "/etc/convert2rhel.ini" ∷ []

-- The attributes that `FileConfig.__init__` sets, but the list of files.
abbrev pub new_file_config : Attributes
new_file_config =
    map (λ key. (key, nothing))
      ("username" ∷ "password" ∷ "org" ∷ "activation_key" ∷ "incomplete_rollback"
        ∷ "tainted_kernel_module_check_skip" ∷ "outdated_package_check_skip" ∷ "allow_older_version"
        ∷ "allow_unavailable_kmods" ∷ "skip_kernel_currency_check" ∷ "configure_host_metering" ∷ [])

-- The list of files in `FileConfig.__init__`: it is the list of the class, which is changed.
unfoldable pub config_files : Option String → List String → List String
config_files custom files = elim custom [
  | none ↦ files
  | some path ↦ if truthy path then path ∷ files else files
]

module _ {C : Type 0} (files : Files C) where
  -- One option of a header
  unfoldable pub option_value : String → String → C → Result Value
  option_value header option parser =
      if contains boolean_options_headers header
      then (files.getboolean header option parser >>= λ b. ok (flag b))
      else (files.get header option parser >>= λ s. ok (text s))

  -- `_get_options_value`, on the options that are left.
  unfoldable pub options_values :
      String → List String → C → List String → Attributes → Result Attributes
  options_values header supported parser [] options = ok options
  options_values header supported parser (option ∷ rest) options =
      if contains supported (files.lower option)
      then (option_value header option parser >>= λ value.
          options_values header supported parser rest (insert option value options))
      else options_values header supported parser rest options

  -- `_get_options_value`
  unfoldable pub get_options_value : String → List String → C → Result Attributes
  get_options_value header supported parser = do
    conf_options ← files.options header parser
    options_values header supported parser conf_options []

  -- `found_opts.update(options)`
  unfoldable pub update : Attributes → Attributes → Attributes
  update found [] = found
  update found ((key, value) ∷ options) = update (insert key value found) options

  -- The headers of one file
  unfoldable pub parse_headers : Dict String (List String) → C → Attributes → Result Attributes
  parse_headers [] parser found = ok found
  parse_headers ((header, supported) ∷ rest) parser found =
      if contains (files.sections parser) header
      then (get_options_value header supported parser >>= λ options.
          parse_headers rest parser (update found options))
      else parse_headers rest parser found

  -- The loop over the files, on reversed paths.
  unfoldable pub parse_paths : List String → C → Attributes → Result Attributes
  parse_paths [] parser found = ok found
  parse_paths (path ∷ paths) parser found = do
    mode ← files.st_mode path
    require (only_owner mode) critical_error
    parser' ← files.read path parser
    found' ← parse_headers config_file_mapping_options parser' found
    parse_paths paths parser' found'

  -- `_parse_options_from_config`
  unfoldable pub parse_options_from_config : List String → Result Attributes
  parse_options_from_config paths = parse_paths (reverse paths) files.new_parser []

  -- The paths of `options_from_config_files`
  unfoldable pub existing_paths : List String → List String
  existing_paths paths = filter files.exists (map files.expanduser paths)

  -- `options_from_config_files`
  unfoldable pub options_from_config_files : List String → Result Attributes
  options_from_config_files paths =
      if has_items (existing_paths paths)
      then parse_options_from_config (existing_paths paths)
      else raise (other "FileNotFoundError")

  -- `FileConfig.run`, of a new object
  unfoldable pub run_file_config : List String → Result Attributes
  run_file_config paths = do
    unparsed_opts ← options_from_config_files paths
    ok (set_supported unparsed_opts new_file_config)
