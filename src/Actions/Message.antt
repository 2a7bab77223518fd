-- ===== src/Actions/Message.antt =====
-- Status codes, messages and results of actions (convert2rhel/actions/__init__.py, the constants
-- and the classes ActionMessageBase, ActionMessage and ActionResult).
pub mod Laws
use convert2rhel.Prelude.{
  ℕ, String, Bool, not, ◌&&◌, ◌||◌, Option, none, some, List, [], ◌∷◌, ltb, leb, ◌==◌, string_eq,
  if◌then◌else◌, truthy, given, or_empty, Result, ok, raise, key_error, invalid_message, ◌>>=◌,
  ◌>>◌, require,
}
use convert2rhel.Prelude.Dict
use convert2rhel.Prelude.Dict.{Dict}

abbrev pub status_codes : Dict String ℕ
status_codes =
    ("SUCCESS", 0)
    ∷ ("INFO", 25)
    ∷ ("WARNING", 51)
    ∷ ("SKIP", 101)
    ∷ ("OVERRIDABLE", 152)
    ∷ ("ERROR", 202)
    ∷ []

-- `STATUS_CODE[level]`, with its KeyError
unfoldable pub status_code : String → Result ℕ
unfolding Dict.get_item
status_code level = Dict.get_item level status_codes

-- `dict((value, key) for key, value in STATUS_CODE.items())`
abbrev pub status_names : Dict ℕ String
status_names =
    (0, "SUCCESS")
    ∷ (25, "INFO")
    ∷ (51, "WARNING")
    ∷ (101, "SKIP")
    ∷ (152, "OVERRIDABLE")
    ∷ (202, "ERROR")
    ∷ []

-- The keyword arguments of a message or a result. A default is the value of its field.
pub record Args : Type 0 where
  pub level : String
  pub id : Option String
  pub title : Option String
  pub description : Option String
  pub diagnosis : Option String
  pub remediations : Option String
  pub variables : Option (Dict String String)

-- The attributes of an ActionMessageBase. As a dictionary, `to_dict` has the same fields.
pub record Message : Type 0 where
  pub id : String
  pub level : ℕ
  pub title : String
  pub description : String
  pub diagnosis : String
  pub remediations : String
  pub variables : Dict String String

abbrev pub or_no_variables : Option (Dict String String) → Dict String String
or_no_variables none = []
or_no_variables (some vs) = vs

abbrev pub attributes : Args → ℕ → Message
attributes a code = record {
  id = or_empty a.id;
  level = code;
  title = or_empty a.title;
  description = or_empty a.description;
  diagnosis = or_empty a.diagnosis;
  remediations = or_empty a.remediations;
  variables = or_no_variables a.variables;
}

-- `ActionMessageBase.__init__`
unfoldable pub message_base : Args → Result Message
unfolding status_code
message_base a = do code ← status_code a.level; ok (attributes a code)

-- `ActionMessage.__init__`: a message is worse than SUCCESS and better than SKIP.
unfoldable pub action_message : Args → Result Message
unfolding status_code message_base
action_message a = do
  require (given a.id && truthy a.level && given a.title && given a.description) invalid_message
  code ← status_code a.level
  require (ltb 0 code && ltb code 101) invalid_message
  message_base a

-- The checks of a result that is no success.
unfoldable pub check_severity : Args → ℕ → Result (Unit {0})
check_severity a code =
    if leb 101 code
    then require (truthy a.level && given a.title && given a.description) invalid_message
    else if ltb 0 code && ltb code 101
    then raise invalid_message
    else ok tt

-- `ActionResult.__init__`
unfoldable pub action_result : Args → Result Message
unfolding status_code message_base check_severity
action_result a = do
  require
      (not (
        a.level == "SUCCESS" && (given a.description || given a.diagnosis || given a.remediations)))
      invalid_message
  require (given a.id) invalid_message
  code ← status_code a.level
  check_severity a code
  message_base a

-- The arguments of a call that gives only a level and an id.
abbrev pub bare_args : String → String → Args
bare_args level id = record {
  level = level;
  id = some id;
  title = some "";
  description = some "";
  diagnosis = some "";
  remediations = some "";
  variables = none;
}
