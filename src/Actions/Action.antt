-- ===== src/Actions/Action.antt =====
-- Actions (convert2rhel/actions/__init__.py, class Action): a class with its id, its dependencies
-- and the body of its `run`, and the object that a run leaves behind.
pub mod Laws
use convert2rhel.Prelude.{
  String, Bool, true, false, not, ◌&&◌, Option, none, some, List, [], ◌∷◌, ◌++◌, contains,
  string_eq, if◌then◌else◌, Exn, Result, ok, raise, key_error, action_error, ◌>>=◌, ◌>>◌, require,
}
use convert2rhel.Actions.Message.{Args, Message, action_message, action_result, bare_args}

-- What the body of a `run` method does behind `super().run()`, over the outside world `W`: set a
-- result, add a message, act on the world and go on by what it then finds, raise, or return.
pub data Body (W : Type 0) : Type 0 where
  done : Body W
  throw : Exn → Body W
  call_set_result : Args → Body W → Body W
  call_add_message : Args → Body W → Body W
  act : (W → W) → (W → Body W) → Body W

module _ (W : Type 0) where
  pub record ActionClass : Type 0 where
    pub id : String
    pub dependencies : List String
    pub body : Body W

  pub record Action : Type 0 where
    pub class : ActionClass
    pub has_run : Bool
    pub result : Option Message
    pub messages : List Message

  -- Calling `run` gives its outcome, the object and the world, also where it raises.
  abbrev pub Outcome : Type 0
  Outcome = Result (Unit {0}) × Action × W

-- The levels that `set_result` takes.
abbrev pub result_levels : List String
result_levels = "ERROR" ∷ "OVERRIDABLE" ∷ "SKIP" ∷ "SUCCESS" ∷ []

module _ {W : Type 0} where
  -- `Action.__init__`
  abbrev pub new_action : ActionClass W → Action W
  new_action class = record { class = class; has_run = false; result = none; messages = [] }

  -- `Action.set_result`
  unfoldable pub set_result : Args → Action W → Result (Action W)
  set_result args a = do
    require (contains result_levels args.level) key_error
    m ← action_result args
    ok (record a { result = some m })

  -- `Action.add_message`
  unfoldable pub add_message : Args → Action W → Result (Action W)
  add_message args a = do
    m ← action_message args
    ok (record a { messages = a.messages ++ (m ∷ []) })

  -- The decorator `_action_defaults_to_success`, behind the call of the method.
  unfoldable pub default_to_success : Action W → Result (Action W)
  default_to_success a = elim a.result [
    | some m ↦ ok a
    | none ↦ (do
      m ← action_result (bare_args "SUCCESS" "SUCCESS")
      ok (record a { result = some m }))
  ]

  -- `Action.run`, which the `run` of a subclass calls first.
  unfoldable pub base_run : Action W → Result (Action W)
  unfolding default_to_success
  base_run a =
      if a.has_run then raise action_error else default_to_success (record a { has_run = true })

  unfoldable pub run_body : Body W → Action W → W → Outcome W
  unfolding set_result add_message
  run_body done a w = (ok tt, a, w)
  run_body (throw e) a w = (raise e, a, w)
  run_body (call_set_result args rest) a w = elim (set_result args a) [
    | ok b ↦ run_body rest b w
    | raise e ↦ (raise e, a, w)
  ]
  run_body (call_add_message args rest) a w = elim (add_message args a) [
    | ok b ↦ run_body rest b w
    | raise e ↦ (raise e, a, w)
  ]
  run_body (act change rest) a w = run_body (rest (change w)) a (change w)

  -- The `run` of a subclass.
  unfoldable pub run : Action W → W → Outcome W
  unfolding base_run run_body
  run a w = elim (base_run a) [ ok b ↦ run_body a.class.body b w | raise e ↦ (raise e, a, w) ]
