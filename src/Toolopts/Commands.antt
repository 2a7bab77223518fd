-- ===== src/Toolopts/Commands.antt =====
-- The options of the command line (convert2rhel/toolopts/config.py, CliConfig), and the subcommand
-- that is added to it (convert2rhel/cli.py). The namespace of argparse is a dict.
use convert2rhel.Prelude.{
  String, Bool, true, false, not, ◌&&◌, Option, none, some, List, [], ◌∷◌, ◌++◌, any, contains,
  ◌==◌, string_eq, Result, ok, raise, key_error, type_error, critical_error, ◌>>=◌, ◌>>◌, require,
  if◌then◌else◌,
}
use convert2rhel.Prelude.Dict.{Dict, lookup, get_item, insert}
use convert2rhel.Toolopts.Values.{
  Value, nothing, flag, text, texts, truth, Attributes, both, either,
}
use convert2rhel.Toolopts.Config.{set_supported}

-- What `_validate` warns of.
pub data Warning : Type 0 where
  insecure_option : Warning
  password_and_activation_key : Warning
  username_without_password : Warning
  password_without_username : Warning
  duplicate_repositories : Warning

-- `_COMMAND_TO_ACTIVITY`
abbrev pub command_to_activity : Dict String String
command_to_activity =
    ("convert", "conversion") ∷ ("analyze", "analysis") ∷ ("analyse", "analysis") ∷ []

-- The attributes that `CliConfig.__init__` sets, but the options.
abbrev pub new_cli_config : Attributes
new_cli_config =
    ("debug", flag false)
    ∷ ("username", nothing)
    ∷ ("password", nothing)
    ∷ ("org", nothing)
    ∷ ("activation_key", nothing)
    ∷ ("config_file", nothing)
    ∷ ("no_rhsm", flag false)
    ∷ ("enablerepo", texts [])
    ∷ ("disablerepo", texts [])
    ∷ ("pool", nothing)
    ∷ ("autoaccept", flag false)
    ∷ ("auto_attach", nothing)
    ∷ ("restart", flag false)
    ∷ ("arch", nothing)
    ∷ ("no_rpm_va", flag false)
    ∷ ("eus", flag false)
    ∷ ("els", flag false)
    ∷ ("activity", nothing)
    ∷ ("serverurl", nothing)
    ∷ []

-- `_COMMAND_TO_ACTIVITY[opts.get("command", "convert")]`
unfoldable pub activity_of : Attributes → Result String
activity_of opts = elim (lookup "command" opts) [
  | none ↦ get_item "convert" command_to_activity
  | some (text command) ↦ get_item command command_to_activity
  | some _ ↦ raise key_error
]

-- `opts.get(key)`
abbrev pub get_or_none : String → Attributes → Value
get_or_none key opts = elim (lookup key opts) [ none ↦ nothing | some v ↦ v ]

-- `opts.get(key) if opts[key] else default`
unfoldable pub get_or : String → Value → Attributes → Result Value
get_or key default opts = get_item key opts >>= λ v. ok (if truth v then v else default)

-- `del opts[key]`
unfoldable pub delete : String → Attributes → Result Attributes
delete key [] = raise key_error
delete key ((k, v) ∷ opts) =
    if key == k then ok opts else (delete key opts >>= λ rest. ok ((k, v) ∷ rest))

-- The options of a conversion only
unfoldable pub conversion_opts : String → Attributes → Attributes → Attributes
conversion_opts activity opts unparsed =
    if activity == "conversion"
    then insert "restart" (get_or_none "restart" opts) unparsed
    else unparsed

-- An analysis ignores `--no-rpm-va`.
unfoldable pub analysis_opts : String → Attributes → Result Attributes
analysis_opts activity unparsed = get_item "no_rpm_va" unparsed >>= λ v. ok (
    if truth v && activity == "analysis"
    then insert "no_rpm_va" (flag false) unparsed
    else unparsed)

-- `_normalize_opts`
unfoldable pub normalize_opts : Attributes → Result Attributes
normalize_opts opts = do
  activity ← activity_of opts
  disablerepo ← get_or "disablerepo" (texts ("*" ∷ [])) opts
  enablerepo ← get_or "enablerepo" (texts []) opts
  autoaccept ← get_or "auto_accept" (flag false) opts
  unparsed_opts ← analysis_opts activity (
      conversion_opts activity opts (
        insert "autoaccept" autoaccept (
          insert "enablerepo" enablerepo
            (insert "disablerepo" disablerepo (insert "activity" (text activity) opts)))))
  delete "command" unparsed_opts

-- `bool(opts[key])`
unfoldable pub is_true : String → Attributes → Result Bool
is_true key opts = get_item key opts >>= λ v. ok (truth v)

abbrev pub warn_if : Bool → Warning → List Warning → List Warning
warn_if true warning rest = warning ∷ rest
warn_if false warning rest = rest

-- `bool(set(opts["disablerepo"]) & set(opts["enablerepo"]))`
unfoldable pub overlaps : Value → Value → Result Bool
overlaps (texts disabled) (texts enabled) = ok (any (contains enabled) disabled)
overlaps _ _ = raise type_error

-- The warnings of `_validate` on the credentials
unfoldable pub credential_warnings : Attributes → Result (List Warning)
credential_warnings opts = do
  insecure ← either (is_true "password" opts) (is_true "activation_key" opts)
  two_ways ← both (is_true "password" opts) (is_true "activation_key" opts)
  username ← is_true "username" opts
  password ← is_true "password" opts
  ok (
      warn_if insecure insecure_option (
        warn_if two_ways password_and_activation_key (
          warn_if (username && not password) username_without_password
            (warn_if (password && not username) password_without_username []))))

-- Its check of the repositories
unfoldable pub has_duplicates : Attributes → Result Bool
has_duplicates opts = do
  any_repo ← either (is_true "enablerepo" opts) (is_true "disablerepo" opts)
  if any_repo
      then (get_item "disablerepo" opts >>= λ d. get_item "enablerepo" opts >>= λ e. overlaps d e)
      else ok false

-- `_validate`
unfoldable pub validate : Attributes → Result (List Warning)
validate opts = do
  warnings ← credential_warnings opts
  duplicates ← has_duplicates opts
  no_rhsm ← is_true "no_rhsm" opts
  no_repo ← both (ok no_rhsm) (is_true "enablerepo" opts >>= λ b. ok (not b))
  require (not no_repo) critical_error
  ok (if duplicates then warnings ++ (duplicate_repositories ∷ []) else warnings)

-- `CliConfig.run`, of a new object
unfoldable pub run_cli_config : Attributes → Result Attributes
run_cli_config opts = do
  normalized ← normalize_opts opts
  warnings ← validate normalized
  ok (set_supported normalized new_cli_config)

abbrev pub args_with_values : List String
args_with_values =
    "-u" ∷ "--username" ∷ "-p" ∷ "--password" ∷ "-k" ∷ "--activationkey" ∷ "-o" ∷ "--org" ∷ "--pool"
    ∷ "--serverurl" ∷ []

abbrev pub parent_args : List String
parent_args = "--debug" ∷ "--help" ∷ "-h" ∷ "--version" ∷ []

-- The loop of `_subcommand_used`, with the argument before: that of the first one is the last.
unfoldable pub subcommand_behind : String → List String → Option String
subcommand_behind before [] = none
subcommand_behind before (argument ∷ args) =
    let rest = subcommand_behind argument args in
    if contains ("convert" ∷ "analyze" ∷ []) argument
    then some argument
    else if not (contains parent_args argument) && contains args_with_values before
    then none
    else rest

abbrev pub last_argument : List String → String
last_argument [] = ""
last_argument (a ∷ []) = a
last_argument (a ∷ b ∷ rest) = last_argument (b ∷ rest)

-- `_subcommand_used`
unfoldable pub subcommand_used : List String → Option String
subcommand_used args = subcommand_behind (last_argument args) args

-- `_add_default_command`
unfoldable pub add_default_command : List String → List String
add_default_command argv = elim (subcommand_used argv) [ none ↦ "convert" ∷ argv | some c ↦ argv ]
