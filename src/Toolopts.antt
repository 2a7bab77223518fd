-- ===== src/Toolopts.antt =====
-- The options of the tool (convert2rhel/toolopts/__init__.py, ToolOpts), over the attributes that
-- its sources have: the objects are dicts of attributes. What is logged is left out, but not that
-- `critical` ends the program.
pub mod Server
pub mod Config
pub mod Commands
pub mod Laws
pub mod Credentials
pub mod Precedence
pub mod Sources
mod Tests
use convert2rhel.Prelude.{
  ℕ, String, Bool, true, false, not, ◌&&◌, ◌||◌, Option, none, some, List, [], ◌∷◌, truthy,
  has_items, ◌==◌, string_eq, Exn, Result, ok, raise, attribute_error, critical_error, ◌>>=◌, ◌>>◌,
  require, if◌then◌else◌,
}
use convert2rhel.Prelude.Dict.{Dict, lookup, insert}
use Values.{
  Value, nothing, flag, text, texts, truth, equals_text, Attributes, attribute, both, is_set,
}
use Server.{Urls, setup_rhsm_parts}
pub mod Values

-- `ToolOpts.set_opts`: the first true value of a key stays.
unfoldable pub set_opts : String → Value → Attributes → Attributes
set_opts key value self = elim (lookup key self) [
  | none ↦ insert key value self
  | some current ↦ if truth value && not (truth current) then insert key value self else self
]

-- `ToolOpts.update_opts`
unfoldable pub update_opts : String → Value → Attributes → Attributes
update_opts key value self = if truthy key && truth value then insert key value self else self

-- `[self.set_opts(key, value) for key, value in vars(config).items()]`
unfoldable pub set_all : Attributes → Attributes → Attributes
set_all [] self = self
set_all ((key, value) ∷ config) self = set_all config (set_opts key value self)

-- Where both sources have a value, that of the command line.
unfoldable pub prefer_cli : String → Attributes → Attributes → Attributes → Result Attributes
prefer_cli key file cli self = do
  conflict ← both (is_set key file) (is_set key cli)
  value ← attribute key cli
  ok (if conflict then insert key value self else self)

-- The corner case of `_handle_config_conflict`
unfoldable pub drop_file_key : Attributes → Attributes → Attributes → Result Attributes
drop_file_key file cli self = do
  conflict ← both (is_set "activation_key" file) (is_set "password" cli)
  ok (if conflict then insert "org" nothing (insert "activation_key" nothing self) else self)

abbrev pub check_accepted : Attributes → Bool → Result (Unit {0})
check_accepted file converts =
    if converts
    then (is_set "incomplete_rollback" file >>= λ accepted. require accepted critical_error)
    else ok tt

abbrev pub check_activity : Attributes → Attributes → Result (Unit {0})
check_activity file self = attribute "activity" self >>= λ activity.
    check_accepted file (not (equals_text "analysis" activity))

-- `--no-rpm-va` in a conversion
unfoldable pub check_incomplete_rollback : Attributes → Attributes → Result (Unit {0})
check_incomplete_rollback file self = do
  no_rpm_va ← is_set "no_rpm_va" self
  if no_rpm_va then check_activity file self else ok tt

-- `_handle_config_conflict`
unfoldable pub handle_config_conflict : Attributes → Attributes → Attributes → Result Attributes
handle_config_conflict file cli t0 = do
  t1 ← prefer_cli "username" file cli t0
  t2 ← prefer_cli "org" file cli t1
  t3 ← prefer_cli "activation_key" file cli t2
  t4 ← prefer_cli "password" file cli t3
  t5 ← drop_file_key file cli t4
  check_incomplete_rollback file t5
  ok t5

-- `_handle_missing_options`
unfoldable pub handle_missing_options : Attributes → Result (Unit {0})
handle_missing_options self = do
  org ← is_set "org" self
  key ← is_set "activation_key" self
  require (not ((org && not key) || (not org && key))) critical_error

module _ (urls : Urls) where
  -- `_handle_rhsm_parts`
  unfoldable pub handle_rhsm_parts : Attributes → Result Attributes
  handle_rhsm_parts self = setup_rhsm_parts urls self >>= λ parts. ok (set_all parts self)

  -- `initialize`, behind `config.run()` of both sources: the configuration file comes first.
  unfoldable pub initialize : Attributes → Attributes → Result Attributes
  initialize file cli = do
    t ← handle_rhsm_parts (set_all cli (set_all file []))
    t' ← handle_config_conflict file cli t
    handle_missing_options t'
    ok t'
