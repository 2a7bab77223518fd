-- ===== src/Subscription/Command.antt =====
-- The class RegistrationCommand of convert2rhel/subscription.py, up to the arguments of its call.
use convert2rhel.Prelude.{
  ℕ, zero, suc, String, ◌<>◌, Bool, true, false, not, ◌&&◌, ◌||◌, Option, none, some, List, [], ◌∷◌,
  ◌++◌, given, or_empty, truthy, ◌==◌, string_eq, Result, ok, raise, value_error, key_error, other,
  if◌then◌else◌,
}
use convert2rhel.Prelude.Calls.{Call, ◌>>=◌, computed, pure, throw}
use convert2rhel.Subscription.Commands.{Options}

pub record RegistrationCommand : Type 0 where
  pub activation_key : Option String
  pub org : Option String
  pub username : Option String
  pub password : Option String
  pub rhsm_hostname : Option String
  pub rhsm_port : Option String
  pub rhsm_prefix : Option String

-- `__init__`: the attributes are the arguments, where they pass its tests.
unfoldable pub new : RegistrationCommand → Result RegistrationCommand
new c =
    if given c.activation_key && not (given c.org)
    then raise value_error
    else if (given c.password && not (given c.username))
        || (given c.username && not (given c.password))
    then raise value_error
    else if given c.password
    then ok c
    else if given c.activation_key
    then ok c
    else raise value_error

-- An option that is set to a text that is not empty
abbrev pub kept : Option String → Option String
kept o = if given o then o else none

-- The arguments that `from_tool_opts` gathers: those of an activation key or of a user
abbrev pub by_key : Options → RegistrationCommand
by_key opts = record {
  activation_key = opts.activation_key;
  org = kept opts.org;
  username = none;
  password = none;
  rhsm_hostname = kept opts.rhsm_hostname;
  rhsm_port = kept opts.rhsm_port;
  rhsm_prefix = kept opts.rhsm_prefix;
}

abbrev pub by_user : Options → String → String → RegistrationCommand
by_user opts username password = record (by_key opts) {
  activation_key = none;
  username = some username;
  password = some password;
}

module _ {W : Type 0} (prompt_user : String → Bool → Call W String) where
  -- The answer, unless it is empty
  abbrev pub answered : Call W String → String → Call W String
  answered again answer = if truthy answer then pure answer else again

  -- `while not answer: answer = prompt_user(...)`, on a bound of the questions
  unfoldable pub prompt_until : ℕ → String → Bool → Call W String
  prompt_until zero question secret = throw (other "still asking")
  prompt_until (suc n) question secret =
      let again = prompt_until n question secret in prompt_user question secret >>= answered again

  abbrev pub given_or_prompt : ℕ → Option String → String → Bool → Call W String
  given_or_prompt n o question secret =
      if given o then pure (or_empty o) else prompt_until n question secret

  -- `from_tool_opts`
  unfoldable pub from_tool_opts : ℕ → Options → Call W RegistrationCommand
  from_tool_opts n opts = if given opts.activation_key then computed (new (by_key opts)) else (do
    username ← given_or_prompt n opts.username "Username: " false
    password ← given_or_prompt n opts.password "Password: " true
    computed (new (by_user opts username password)))

abbrev entry : String → Option String → List (String × String)
entry name o = if given o then (name, or_empty o) ∷ [] else []

-- The port is taken also where it is empty.
abbrev port_entry : Option String → List (String × String)
port_entry none = []
port_entry (some port) = ("port", port) ∷ []

unfoldable pub connection_opts : RegistrationCommand → List (String × String)
connection_opts c =
    entry "host" c.rhsm_hostname ++ (port_entry c.rhsm_port ++ entry "handler" c.rhsm_prefix)

-- `CONNECT_OPT_NAME_TO_CONFIG_KEY`
unfoldable pub config_key : String → Result String
config_key name =
    if name == "host"
    then ok "server.hostname"
    else if name == "port"
    then ok "server.port"
    else if name == "handler"
    then ok "server.prefix"
    else raise key_error

unfoldable pub config_args : List (String × String) → Result (List String)
config_args [] = ok []
config_args ((name, value) ∷ rest) = elim (config_key name) [
  | raise e ↦ raise e
  | ok key ↦
      let others = config_args rest in
      elim others [ ok args ↦ ok (("--" <> (key <> ("=" <> value))) ∷ args) | raise e ↦ raise e ]
]

-- The method of the D-Bus object com.redhat.RHSM1.Register that is called, with its arguments;
-- the dictionary of options, which is empty, and the locale are left out.
pub data RegisterRequest : Type 0 where
  register :
      (org username password : Option String) (connection : List (String × String))
      → RegisterRequest
  register_with_activation_keys :
      (org : Option String) (keys : List (Option String)) (connection : List (String × String))
      → RegisterRequest

unfoldable pub request_of : RegistrationCommand → RegisterRequest
request_of c =
    if given c.password
    then register (some (or_empty c.org)) c.username c.password (connection_opts c)
    else register_with_activation_keys c.org (c.activation_key ∷ []) (connection_opts c)
