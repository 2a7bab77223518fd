-- ===== src/Actions/Message/Laws.antt =====
-- Which messages and results can be built (ActionMessage and ActionResult).
use convert2rhel.Prelude.{
  ℕ, ◌≡◌, sym, ◌↔◌, ◌⊎◌, inl, inr, String, true, false, given, ok, arith, string_eq, subst,
}
use convert2rhel.Actions.Message.{Args, Message, attributes, action_message, action_result}

-- What a message needs.
abbrev pub IsMessage : Args → Type 0
IsMessage a =
    (given a.id ≡ true)
    × (given a.title ≡ true)
    × (given a.description ≡ true)
    × ((a.level ≡ "INFO") ⊎ (a.level ≡ "WARNING"))

action_message_sound : (a : Args) {m : Message} → action_message a ≡ ok m → IsMessage a
unfolding action_message
action_message_sound a h = ground arith

module _ (a : Args) (i : given a.id ≡ true) (t : given a.title ≡ true)
    (d : given a.description ≡ true) where
  abbrev Builds : String → ℕ → Type 0
  Builds level code =
      let b = record a { level = level } in action_message b ≡ ok (attributes b code)

  Builds-info : Builds "INFO" 25
  unfolding action_message string_eq
  Builds-info = rw (i, t, d)

  Builds-warning : Builds "WARNING" 51
  unfolding action_message string_eq
  Builds-warning = rw (i, t, d)

-- A message can be built exactly when it has an id, a title and a description and its level is
-- INFO or WARNING.
pub action_message_iff : (a : Args) → ((m : Message) × (action_message a ≡ ok m)) ↔ IsMessage a
action_message_iff a = (λ (m, h). action_message_sound a h, build)
  where
    build : IsMessage a → (m : Message) × (action_message a ≡ ok m)
    build (i, t, d, inl p) =
        (attributes a 25, subst (λ l. Builds a i t d l 25) (sym p) (Builds-info a i t d))
    build (i, t, d, inr p) =
        (attributes a 51, subst (λ l. Builds a i t d l 51) (sym p) (Builds-warning a i t d))

abbrev pub IsFailing : String → Type 0
IsFailing level = (level ≡ "SKIP") ⊎ ((level ≡ "OVERRIDABLE") ⊎ (level ≡ "ERROR"))

-- What a result needs.
abbrev pub IsSuccess : Args → Type 0
IsSuccess a =
    (a.level ≡ "SUCCESS")
    × (given a.description ≡ false)
    × (given a.diagnosis ≡ false)
    × (given a.remediations ≡ false)

abbrev pub IsFailure : Args → Type 0
IsFailure a = IsFailing a.level × (given a.title ≡ true) × (given a.description ≡ true)

abbrev pub IsResult : Args → Type 0
IsResult a = (given a.id ≡ true) × (IsSuccess a ⊎ IsFailure a)

action_result_sound : (a : Args) {m : Message} → action_result a ≡ ok m → IsResult a
unfolding action_result
action_result_sound a h = ground arith

module _ (a : Args) (i : given a.id ≡ true) where
  abbrev Results : String → ℕ → Type 0
  Results level code =
      let b = record a { level = level } in action_result b ≡ ok (attributes b code)

  results_success :
      given a.description ≡ false
      → given a.diagnosis ≡ false
      → given a.remediations ≡ false
      → Results "SUCCESS" 0
  unfolding action_result string_eq
  results_success d g r = rw (i, d, g, r)

  results_failing :
      given a.title ≡ true
      → given a.description ≡ true
      → Results "SKIP" 101 × Results "OVERRIDABLE" 152 × Results "ERROR" 202
  unfolding action_result string_eq
  results_failing t d = (rw (i, t, d), rw (i, t, d), rw (i, t, d))

  pub action_result-failing :
      given a.title ≡ true
      → given a.description ≡ true
      → IsFailing a.level
      → (m : Message) × (action_result a ≡ ok m)
  action_result-failing t d (inl p) =
      (attributes a 101, subst (λ l. Results l 101) (sym p) (results_failing t d).0)
  action_result-failing t d (inr (inl p)) =
      (attributes a 152, subst (λ l. Results l 152) (sym p) (results_failing t d).1)
  action_result-failing t d (inr (inr p)) =
      (attributes a 202, subst (λ l. Results l 202) (sym p) (results_failing t d).2)

-- A result can be built exactly when it has an id and either is a SUCCESS with no description,
-- diagnosis and remediations, or is a SKIP, OVERRIDABLE or ERROR with a title and a description.
pub action_result_iff : (a : Args) → ((m : Message) × (action_result a ≡ ok m)) ↔ IsResult a
action_result_iff a = (λ (m, h). action_result_sound a h, build)
  where
    build : IsResult a → (m : Message) × (action_result a ≡ ok m)
    build (i, inl (p, d, g, r)) =
        (attributes a 0, subst (λ l. Results a i l 0) (sym p) (results_success a i d g r))
    build (i, inr (f, t, d)) = action_result-failing a i t d f
