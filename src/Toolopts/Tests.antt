-- ===== src/Toolopts/Tests.antt =====
-- Runs on small configurations (convert2rhel/toolopts/__init__.py, convert2rhel/toolopts/config.py).
use convert2rhel.Prelude.{
  nat_eq, String, true, false, Option, none, some, List, [], ◌∷◌, ◌≡◌, refl, ◌==◌, string_eq, All,
  filter, Result, ok, raise, critical_error,
}
use convert2rhel.Prelude.Dict.{lookup, insert, get_item}
use convert2rhel.Toolopts.Values.{Value, nothing, flag, text, truth, Attributes, attribute, is_set}
use convert2rhel.Toolopts.Server.{
  Urls, should_subscribe, validate_serverurl_parsing, parse_serverurl, parts_of_url,
  setup_rhsm_parts,
}
use convert2rhel.Toolopts.{
  set_opts, set_all, prefer_cli, drop_file_key, check_incomplete_rollback, handle_config_conflict,
  handle_missing_options, handle_rhsm_parts, initialize,
}
use convert2rhel.Toolopts.Config.{
  Files, config_files, default_config_files, octal_digit, oct_backwards, ends_with_00, only_owner,
  set_supported, option_value, options_values, get_options_value, update, parse_headers,
  parse_paths, parse_options_from_config, existing_paths, options_from_config_files,
  run_file_config,
}
use convert2rhel.Toolopts.Commands.{
  activity_of, get_or, delete, conversion_opts, analysis_opts, normalize_opts, is_true, overlaps,
  credential_warnings, has_duplicates, validate, run_cli_config, subcommand_behind, subcommand_used,
  add_default_command,
}
use convert2rhel.Toolopts.Credentials.{Credentials, Has, resolved}
use convert2rhel.Toolopts.Precedence.{initialize-Settled}
use convert2rhel.Toolopts.Sources.{
  IsPrivate, options_from_config_files-IsPrivate, add_default_command-add_default_command,
}

program : Unit {0}
unfolding nat_eq octal_digit oct_backwards ends_with_00 only_owner lookup insert get_item string_eq
    attribute is_set should_subscribe validate_serverurl_parsing parse_serverurl parts_of_url
    setup_rhsm_parts set_opts set_all prefer_cli drop_file_key check_incomplete_rollback
    handle_config_conflict handle_missing_options handle_rhsm_parts initialize config_files
    set_supported option_value options_values get_options_value update parse_headers parse_paths
    parse_options_from_config existing_paths options_from_config_files run_file_config activity_of
    get_or delete conversion_opts analysis_opts normalize_opts is_true overlaps credential_warnings
    has_duplicates validate run_cli_config subcommand_behind subcommand_used add_default_command
    filter
program = tt

abbrev urls : Urls
urls = record {
  has_scheme = λ s. true;
  is_malformed = λ s. false;
  urlsplit = λ s.
      ok (record {
        scheme = "https";
        hostname = some "example.com";
        port = ok (some 443);
        path = "";
      });
  str = λ n. "443";
}

abbrev namespace : Attributes
namespace =
    ("command", text "analyze")
    ∷ ("username", text "admin")
    ∷ ("password", text "secret")
    ∷ ("org", nothing)
    ∷ ("activation_key", nothing)
    ∷ ("no_rhsm", flag false)
    ∷ ("enablerepo", nothing)
    ∷ ("disablerepo", nothing)
    ∷ ("auto_accept", flag true)
    ∷ ("no_rpm_va", flag true)
    ∷ ("serverurl", text "https://example.com:443")
    ∷ ("restart", flag true)
    ∷ []

abbrev cli : Attributes
cli =
    ("username", text "admin")
    ∷ ("password", text "secret")
    ∷ ("org", nothing)
    ∷ ("activation_key", nothing)
    ∷ ("no_rhsm", flag false)
    ∷ ("no_rpm_va", flag false)
    ∷ ("activity", text "analysis")
    ∷ ("serverurl", text "https://example.com:443")
    ∷ []

abbrev file : Attributes
file =
    ("username", text "other")
    ∷ ("password", nothing)
    ∷ ("org", text "1234")
    ∷ ("activation_key", text "key")
    ∷ ("incomplete_rollback", nothing)
    ∷ []

abbrev of_file : Credentials
of_file = record {
  username = text "other";
  password = nothing;
  org = text "1234";
  activation_key = text "key";
}

abbrev of_cli : Credentials
of_cli = record {
  username = text "admin";
  password = text "secret";
  org = nothing;
  activation_key = nothing;
}

abbrev options : Attributes
options =
    ("username", text "admin")
    ∷ ("password", text "secret")
    ∷ ("org", nothing)
    ∷ ("activation_key", nothing)
    ∷ ("incomplete_rollback", nothing)
    ∷ ("no_rhsm", flag false)
    ∷ ("no_rpm_va", flag false)
    ∷ ("activity", text "analysis")
    ∷ ("serverurl", text "https://example.com:443")
    ∷ ("rhsm_hostname", text "example.com")
    ∷ ("rhsm_port", text "443")
    ∷ ("rhsm_prefix", nothing)
    ∷ []

initialize_works : initialize urls file cli ≡ ok options
unfolding program
initialize_works = refl

file-Has : Has of_file file
unfolding program
file-Has = record { username = refl; password = refl; org = refl; activation_key = refl }

cli-Has : Has of_cli cli
unfolding program
cli-Has = record { username = refl; password = refl; org = refl; activation_key = refl }

initialize-Settled_example :
    Has (resolved of_file of_cli) options
    × (truth (resolved of_file of_cli).org ≡ truth (resolved of_file of_cli).activation_key)
unfolding program
initialize-Settled_example =
    initialize-Settled urls of_file of_cli file cli (refl, (refl, (refl, (refl, (refl, tt)))))
      (refl, (refl, (refl, (refl, (refl, (refl, (refl, (refl, tt)))))))) file-Has cli-Has
      initialize_works

-- An analysis runs rpm -Va also with --no-rpm-va.
abbrev no_rpm_va_of : Result Attributes → Option Value
no_rpm_va_of (ok d) = lookup "no_rpm_va" d
no_rpm_va_of (raise e) = none

run_cli_config_works : no_rpm_va_of (run_cli_config namespace) ≡ some (flag false)
unfolding program
run_cli_config_works = refl

no_repository_is_critical :
    run_cli_config (insert "no_rhsm" (flag true) namespace) ≡ raise critical_error
unfolding program
no_repository_is_critical = refl

-- A parser that is the last path it read; one of the default files is there.
abbrev files : Files String
files = record {
  expanduser = λ path. path;
  exists = λ path. path == "/etc/convert2rhel.ini";
  -- 0o100600
  st_mode = λ path. ok 33152;
  new_parser = "";
  read = λ path parser. ok path;
  sections = λ parser. "subscription_manager" ∷ "other" ∷ [];
  options = λ header parser. ok ("username" ∷ "unknown" ∷ []);
  get = λ header option parser. ok parser;
  getboolean = λ header option parser. ok true;
  lower = λ s. s;
}

username_is_read :
    options_from_config_files files default_config_files
    ≡ ok (("username", text "/etc/convert2rhel.ini") ∷ [])
unfolding program
username_is_read = refl

options_from_config_files-IsPrivate_example :
    All (IsPrivate files) (existing_paths files default_config_files)
unfolding program
options_from_config_files-IsPrivate_example =
    options_from_config_files-IsPrivate files default_config_files username_is_read

abbrev arguments : List String
arguments = "-u" ∷ "admin" ∷ "-p" ∷ "secret" ∷ []

default_command_is_added_once : add_default_command ("convert" ∷ arguments) ≡ "convert" ∷ arguments
unfolding program
default_command_is_added_once = add_default_command-add_default_command arguments

-- A user of the name of a subcommand is taken for it.
user_named_convert : subcommand_used ("-u" ∷ "convert" ∷ []) ≡ some "convert"
unfolding program
user_named_convert = refl

-- 0o100600 and 0o100644
only_owner_works : (only_owner 33152 ≡ true) × (only_owner 33188 ≡ false)
unfolding program
only_owner_works = (refl, refl)
