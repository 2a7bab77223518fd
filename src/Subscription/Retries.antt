-- ===== src/Subscription/Retries.antt =====
-- The loop of `register_system` (convert2rhel/subscription.py) as attempts one behind the other.
use convert2rhel.Prelude.{
  ℕ, suc, Option, none, some, List, [], ◌∷◌, Exn, ok, critical_error, ◌≡◌, refl, ap, fun_ext,
}
use convert2rhel.Prelude.Calls.{Call, ◌>>=◌, ◌>>◌, throw, do_nothing}
use convert2rhel.Subscription.Attempts.{
  Steps, item_at, registration_attempt_delays, attempt_once, pause_then, register_loop,
}

module _ {W C : Type 0} (steps : Steps W C) where
  abbrev Do : Type 0
  Do = Call W (Unit {0})

  abbrev pub pause_for : ℕ → Do → Option Exn → Do
  pause_for seconds next none = do_nothing
  pause_for seconds next (some problem) = steps.sleep seconds >> next

  -- The attempts one behind the other, each with the pause behind it
  unfoldable pub in_turn : List (ℕ × ℕ) → Do
  in_turn [] = throw critical_error
  in_turn ((attempt, seconds) ∷ rest) =
      attempt_once steps attempt >>= pause_for seconds (in_turn rest)

  pause_then-pause_for :
      (attempt seconds : ℕ) (next : Do) (o : Option Exn)
      → item_at registration_attempt_delays attempt ≡ ok seconds
      → pause_then steps attempt next o ≡ pause_for seconds next o
  pause_then-pause_for attempt seconds next none h = refl
  pause_then-pause_for attempt seconds next (some problem) h = rw h refl

  one_round :
      (attempt seconds : ℕ) (next other : Do)
      → item_at registration_attempt_delays attempt ≡ ok seconds
      → next ≡ other
      → (attempt_once steps attempt >>= pause_then steps attempt next)
        ≡ (attempt_once steps attempt >>= pause_for seconds other)
  one_round attempt seconds next other h e = rw e (
      ap (λ k. attempt_once steps attempt >>= k)
        (fun_ext (λ o. pause_then-pause_for attempt seconds other o h)))

  -- On every bound of at least four rounds, the loop is three attempts in turn, the first one
  -- followed by a pause of 5 seconds where it fails, the second of 11 and the third of 23, behind
  -- which it raises a CriticalError.
  pub register_loop-in_turn :
      (n : ℕ)
      → register_loop steps (suc (suc (suc (suc n)))) 0 ≡ in_turn ((0, 5) ∷ (1, 11) ∷ (2, 23) ∷ [])
  unfolding register_loop in_turn
  register_loop-in_turn n =
      let third = one_round 2 23 (throw critical_error) (throw critical_error) refl refl in
      let second = one_round 1 11 _ _ refl third in one_round 0 5 _ _ refl second
