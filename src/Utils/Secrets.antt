-- ===== src/Utils/Secrets.antt =====
-- Secrets on the command line: hide_secrets of convert2rhel/utils/__init__.py.
pub mod Laws
use convert2rhel.Prelude.{
  String, ◌<>◌, Bool, true, false, ◌&&◌, List, [], ◌∷◌, contains, ◌==◌, string_eq, if◌then◌else◌,
}
use convert2rhel.Prelude.Text.{starts_with}

-- `OBFUSCATION_STRING`
abbrev pub obfuscation_string : String
obfuscation_string = "*****"

-- The default of `secret_options`, in one of the orders of the set.
abbrev pub secret_options : List String
secret_options =
    "--username" ∷ "--password" ∷ "--activationkey" ∷ "--org" ∷ "-u" ∷ "-p" ∷ "-k" ∷ "-o" ∷ []

-- The loop over the options for `--option=value`
unfoldable pub hide_in_one : List String → String → String
hide_in_one [] arg = arg
hide_in_one (option ∷ options) arg =
    hide_in_one options
      (if starts_with (option <> "=") arg then option <> ("=" <> obfuscation_string) else arg)

-- The loop over the arguments, with `hide_next`
unfoldable pub hide_args : List String → (hide_next : Bool) → List String → List String
hide_args secrets hide_next [] = []
hide_args secrets true (arg ∷ args) = obfuscation_string ∷ hide_args secrets false args
hide_args secrets false (arg ∷ args) =
    let rest = hide_args secrets (contains secrets arg) args in
    (if contains secrets arg then arg else hide_in_one secrets arg) ∷ rest

-- `hide_secrets`
unfoldable pub hide_secrets : List String → List String
hide_secrets args = hide_args secret_options false args
