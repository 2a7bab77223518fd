-- ===== src/Actions/Stage/Visit.antt =====
-- One round of the loop of `Stage.run`: the action is skipped, or it is run and sorted by its
-- result; only an interrupt by the user ends the loop.
use convert2rhel.Prelude.{
  ℕ, String, ◌≡◌, refl, ◌⊎◌, inl, inr, true, false, some, List, [], ◌∷◌, ◌++◌, arith, has_items,
  string_eq, Exn, keyboard_interrupt, is_caught, Result, ok, raise, Bool-cases, truthy-append,
}
use convert2rhel.Actions.Message.{Message, action_result}
use convert2rhel.Actions.Message.Laws.{action_result-failing}
use convert2rhel.Actions.Action.{ActionClass, Action, new_action, set_result, run}
use convert2rhel.Actions.Action.Laws.{
  HasLegalResult, IsFinished, run-IsFinished, set_result-IsFinished,
}
use convert2rhel.Actions.Stage.{
  Traces, Progress, unexpected_args, skip, categorize, handle, attempt, failed_dependencies, visit,
}

abbrev pub IsFailureLevel : ℕ → Type 0
IsFailureLevel n = (n ≡ 101) ⊎ ((n ≡ 152) ⊎ (n ≡ 202))

module _ {W : Type 0} where
  -- An action of the class with a result of the level.
  abbrev pub HasLevel : ActionClass W → ℕ → Action W → Type 0
  HasLevel c n a = (a.class ≡ c) × ((m : Message) × (a.result ≡ some m) × (m.level ≡ n))

  abbrev pub HasFailed : ActionClass W → Action W → Type 0
  HasFailed c a = (a.class ≡ c) × ((m : Message) × (a.result ≡ some m) × IsFailureLevel m.level)

  abbrev pub add_success : Action W → Progress W → Progress W
  add_success a p = record p {
    finished = record p.finished { successes = p.finished.successes ++ (a ∷ []) };
  }

  abbrev pub add_failure : Action W → Progress W → Progress W
  add_failure a p = record {
    finished = record p.finished { failures = p.finished.failures ++ (a ∷ []) };
    failed_ids = a.class.id ∷ p.failed_ids;
  }

  abbrev pub add_skip : Action W → Progress W → Progress W
  add_skip a p = record {
    finished = record p.finished { skips = p.finished.skips ++ (a ∷ []) };
    failed_ids = a.class.id ∷ p.failed_ids;
  }

  skip_lem :
      (c : ActionClass W) (ds : List String) (p : Progress W)
      → (a : Action W) × (skip c ds p ≡ ok (add_skip a p)) × HasLevel c 101 a
  unfolding skip set_result action_result string_eq
  skip_lem c ds p = (_, refl, (refl, (_, refl, refl)))

  categorize-success :
      (a : Action W) (p : Progress W) (m : Message)
      → a.result ≡ some m
      → m.level ≡ 0
      → categorize a p ≡ ok (add_success a p)
  unfolding categorize
  categorize-success a p m e z = ground arith

  categorize-failure :
      (a : Action W) (p : Progress W) (m : Message)
      → a.result ≡ some m
      → IsFailureLevel m.level
      → categorize a p ≡ ok (add_failure a p)
  unfolding categorize
  categorize-failure a p m e z = ground arith

  -- What a round may leave of an object that was run.
  abbrev IsSorted : ActionClass W → Action W → Progress W → Type 0
  IsSorted c a p =
      (HasLevel c 0 a × (categorize a p ≡ ok (add_success a p)))
      ⊎ (HasFailed c a × (categorize a p ≡ ok (add_failure a p)))

  categorize-IsSorted :
      (c : ActionClass W) (a : Action W) (p : Progress W) → IsFinished c a → IsSorted c a p
  categorize-IsSorted c a p v = go v.legal_result
    where
      go : HasLegalResult a → IsSorted c a p
      go (m, e, inl z) = inl ((v.class_kept, (m, e, z)), categorize-success a p m e z)
      go (m, e, inr f) = inr ((v.class_kept, (m, e, f)), categorize-failure a p m e f)

module _ {W : Type 0} (traces : Traces) where
  set_unexpected :
      (e : Exn) (a : Action W) → (b : Action W) × (set_result (unexpected_args traces e) a ≡ ok b)
  unfolding set_result string_eq
  set_unexpected e a =
      let (m, h) =
        action_result-failing (unexpected_args traces e) refl refl
          (truthy-append "Unhandled exception was caught: " _ refl) (inr (inr refl)) in
      (record a { result = some m }, rw h)

  handle-cases :
      (c : ActionClass W) (outcome : Result (Unit {0})) (a : Action W)
      → IsFinished c a
      → (handle traces outcome a ≡ raise keyboard_interrupt)
        ⊎ ((b : Action W) × (handle traces outcome a ≡ ok b) × IsFinished c b)
  unfolding handle
  handle-cases c (ok u) a v = inr (a, refl, v)
  handle-cases c (raise e) a v = elim (Bool-cases (is_caught e)) [
    | inl caught ↦
        let (b, h) = set_unexpected e a in inr (b, rw caught h, set_result-IsFinished _ a b v h)
    | inr not_caught ↦ inl (ground arith)
  ]

  -- The three ways in which a round ends normally.
  pub data Round (c : ActionClass W) (p q : Progress W) : Type 0 where
    skipped :
        (a : Action W)
        → HasLevel c 101 a
        → has_items (failed_dependencies traces c p) ≡ true
        → q ≡ add_skip a p
        → Round c p q
    succeeded :
        (a : Action W)
        → HasLevel c 0 a
        → has_items (failed_dependencies traces c p) ≡ false
        → q ≡ add_success a p
        → Round c p q
    failed :
        (a : Action W)
        → HasFailed c a
        → has_items (failed_dependencies traces c p) ≡ false
        → q ≡ add_failure a p
        → Round c p q

  pub visit-cases :
      (c : ActionClass W) (p : Progress W) (w : W)
      → ((visit traces c p w).0 ≡ raise keyboard_interrupt)
        ⊎ ((q : Progress W) × ((visit traces c p w).0 ≡ ok q) × Round c p q)
  unfolding visit attempt
  visit-cases c p w = elim (Bool-cases (has_items (failed_dependencies traces c p))) [
    | inl some_failed ↦
        let (a, e, l) = skip_lem c (failed_dependencies traces c p) p in
        inr (_, rw some_failed e, skipped a l some_failed refl)
    | inr none_failed ↦
        let (outcome, a, w') = run (new_action c) w in
        elim (handle-cases c outcome a (run-IsFinished c w)) [
          | inl stopped ↦ inl (rw (none_failed, stopped))
          | inr (b, h, v) ↦ elim (categorize-IsSorted c b p v) [
            | inl (l, e) ↦ inr (_, rw (none_failed, h) e, succeeded b l none_failed refl)
            | inr (l, e) ↦ inr (_, rw (none_failed, h) e, failed b l none_failed refl)
          ]
        ]
  ]
