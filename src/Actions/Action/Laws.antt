-- ===== src/Actions/Action/Laws.antt =====
-- What `run` leaves in the object.
use convert2rhel.Prelude.{
  ◌≡◌, refl, ◌⊎◌, ℕ, some, [], ◌∷◌, ◌++◌, ok, raise, action_error, arith, true, bind-eq-ok,
  Result-cases, inl, inr, require, contains, string_eq, key_error, All, All-append,
}
use convert2rhel.Actions.Message.{Args, Message, action_result, action_message}
use convert2rhel.Actions.Action.{
  Body, done, throw, call_set_result, call_add_message, act, ActionClass, Action, new_action,
  set_result, add_message, run_body, run, result_levels,
}

-- The codes that a result can have: SUCCESS, SKIP, OVERRIDABLE and ERROR.
abbrev pub IsResultLevel : ℕ → Type 0
IsResultLevel n = (n ≡ 0) ⊎ ((n ≡ 101) ⊎ ((n ≡ 152) ⊎ (n ≡ 202)))

-- Those that a message can have: INFO and WARNING.
abbrev pub IsMessageLevel : ℕ → Type 0
IsMessageLevel n = (n ≡ 25) ⊎ (n ≡ 51)

action_result-IsResultLevel :
    (a : Args) (m : Message) → action_result a ≡ ok m → IsResultLevel m.level
unfolding action_result
action_result-IsResultLevel a m h = ground arith

action_message-IsMessageLevel :
    (a : Args) (m : Message) → action_message a ≡ ok m → IsMessageLevel m.level
unfolding action_message
action_message-IsMessageLevel a m h = ground arith

module _ {W : Type 0} where
  abbrev pub HasLegalResult : Action W → Type 0
  HasLegalResult a = (m : Message) × (a.result ≡ some m) × IsResultLevel m.level

  abbrev pub HasLegalMessages : Action W → Type 0
  HasLegalMessages a = All (λ (m : Message). IsMessageLevel m.level) a.messages

  -- An object of the class, run, with a result and messages of the right levels.
  pub record IsFinished (c : ActionClass W) (a : Action W) : Type 0 where
    pub class_kept : a.class ≡ c
    pub was_run : a.has_run ≡ true
    pub legal_result : HasLegalResult a
    pub legal_messages : HasLegalMessages a

  pub set_result-eq-ok :
      (args : Args) (a b : Action W)
      → set_result args a ≡ ok b
      → (m : Message) × (action_result args ≡ ok m) × (b ≡ record a { result = some m })
  unfolding set_result
  set_result-eq-ok args a b h =
      let (u, p, q) = bind-eq-ok (require (contains result_levels args.level) key_error) _ h in
      let (m, r, e) = bind-eq-ok (action_result args) _ q in (m, r, cc)

  add_message-eq-ok :
      (args : Args) (a b : Action W)
      → add_message args a ≡ ok b
      → (m : Message) × (action_message args ≡ ok m)
        × (b ≡ record a { messages = a.messages ++ (m ∷ []) })
  unfolding add_message
  add_message-eq-ok args a b h = let (m, r, e) = bind-eq-ok (action_message args) _ h in (m, r, cc)

  pub set_result-IsFinished :
      {c : ActionClass W} (args : Args) (a b : Action W)
      → IsFinished c a
      → set_result args a ≡ ok b
      → IsFinished c b
  set_result-IsFinished args a b v h =
      let (m, r, e) = set_result-eq-ok args a b h in
      rw e (record {
        class_kept = v.class_kept;
        was_run = v.was_run;
        legal_result = (m, refl, action_result-IsResultLevel args m r);
        legal_messages = v.legal_messages;
      })

  add_message-IsFinished :
      {c : ActionClass W} (args : Args) (a b : Action W)
      → IsFinished c a
      → add_message args a ≡ ok b
      → IsFinished c b
  add_message-IsFinished args a b v h =
      let (m, r, e) = add_message-eq-ok args a b h in
      rw e (record {
        class_kept = v.class_kept;
        was_run = v.was_run;
        legal_result = v.legal_result;
        legal_messages =
            All-append (λ (n : Message). IsMessageLevel n.level) a.messages (m ∷ [])
              v.legal_messages (action_message-IsMessageLevel args m r, tt);
      })

  run_body-IsFinished :
      {c : ActionClass W} (body : Body W) (a : Action W) (w : W)
      → IsFinished c a
      → IsFinished c (run_body body a w).1
  unfolding run_body
  run_body-IsFinished done a w v = v
  run_body-IsFinished (throw e) a w v = v
  run_body-IsFinished (call_set_result args rest) a w v = elim (Result-cases (set_result args a)) [
    | inl (b, e) ↦
        rw (e, run_body) (run_body-IsFinished rest b w (set_result-IsFinished args a b v e))
    | inr (x, e) ↦ rw (e, run_body) v
  ]
  run_body-IsFinished (call_add_message args rest) a w v =
      elim (Result-cases (add_message args a)) [
        | inl (b, e) ↦
            rw (e, run_body) (run_body-IsFinished rest b w (add_message-IsFinished args a b v e))
        | inr (x, e) ↦ rw (e, run_body) v
      ]
  run_body-IsFinished (act change rest) a w v = run_body-IsFinished (rest (change w)) a (change w) v

  -- Whatever its body does, and also where it raises, running a new object leaves it marked as run,
  -- with a result whose level is SUCCESS, SKIP, OVERRIDABLE or ERROR and with messages whose levels
  -- are INFO or WARNING.
  pub run-IsFinished : (c : ActionClass W) (w : W) → IsFinished c (run (new_action c) w).1
  unfolding run string_eq action_result
  run-IsFinished c w = run_body-IsFinished c.body _ w (record {
    class_kept = refl;
    was_run = refl;
    legal_result = (_, refl, inl refl);
    legal_messages = tt;
  })

  run_of_has_run : (a : Action W) (u : W) → a.has_run ≡ true → run a u ≡ (raise action_error, a, u)
  unfolding run
  run_of_has_run a u h = ground arith

  -- A second run of the same object raises ActionError and changes neither it nor the world.
  pub run_again :
      (c : ActionClass W) (w u : W)
      → let a = (run (new_action c) w).1 in run a u ≡ (raise action_error, a, u)
  run_again c w u = run_of_has_run _ u (run-IsFinished c w).was_run
