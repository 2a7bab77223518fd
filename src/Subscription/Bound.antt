-- ===== src/Subscription/Bound.antt =====
-- How often the system is registered (convert2rhel/subscription.py, `register_system`).
use Prim.Native.Nat.{◌*◌}
use convert2rhel.Prelude.{
  ℕ, suc, ◌+◌, ◌≤◌, Option, none, some, List, [], ◌∷◌, length, Exn, is_exception, leb, arith,
}
use convert2rhel.Prelude.Calls.{Call}
use convert2rhel.Prelude.Costs.{
  Costs, computed-Costs, more-Costs, catch-Costs, bind-Costs, if-Costs,
}
use convert2rhel.Subscription.Attempts.{
  Steps, pass_unregister_error, pass_stop_rhsm_error, restore_failed, restore_first, prepare,
  keep_problem, try_register, attempt_once, register_system,
}
use convert2rhel.Subscription.Retries.{pause_for, in_turn, register_loop-in_turn}

module _ {W C : Type 0} (steps : Steps W C) where
  -- The calls in front of the registration do not add to the count, and a registration adds three at
  -- most.
  module _ (count : W → ℕ) where
    pub record IsCounted : Type 0 where
      pub unregister : Costs count 0 steps.unregister
      pub stop : Costs count 0 steps.stop
      pub gather : Costs count 0 steps.gather
      pub restore : Costs count 0 steps.restore_os_release
      pub remove : Costs count 0 steps.remove_os_release
      pub sleep : (seconds : ℕ) → Costs count 0 (steps.sleep seconds)
      pub registration_cmd : (c : C) → Costs count 3 (steps.registration_cmd c)

    module _ (h : IsCounted) where
      pass_unregister_error-Costs : (e : Exn) → Costs count 0 (pass_unregister_error steps e)
      pass_unregister_error-Costs e = record { bound = λ w. ground arith }

      pass_stop_rhsm_error-Costs : (e : Exn) → Costs count 0 (pass_stop_rhsm_error steps e)
      pass_stop_rhsm_error-Costs e = record { bound = λ w. ground arith }

      restore_failed-Costs : (e : Exn) → Costs count 0 (restore_failed steps e)
      restore_failed-Costs e = record { bound = λ w. ground arith }

      restore_first-Costs : (attempt : ℕ) → Costs count 0 (restore_first steps attempt)
      unfolding restore_first
      restore_first-Costs attempt =
          if-Costs (leb attempt 0) (catch-Costs h.restore restore_failed-Costs) computed-Costs

      prepare-Costs : (attempt : ℕ) → Costs count 0 (prepare steps attempt)
      unfolding prepare
      prepare-Costs attempt =
          bind-Costs (catch-Costs h.unregister pass_unregister_error-Costs) (λ u.
            bind-Costs (catch-Costs h.stop pass_stop_rhsm_error-Costs) (λ u.
              bind-Costs h.gather
                (λ cmd. bind-Costs (restore_first-Costs attempt) (λ u. computed-Costs))))

      keep_problem-Costs : (e : Exn) → Costs count 0 (keep_problem steps e)
      keep_problem-Costs e = if-Costs (is_exception e) computed-Costs computed-Costs

      attempt_once-Costs : (attempt : ℕ) → Costs count 3 (attempt_once steps attempt)
      unfolding attempt_once try_register
      attempt_once-Costs attempt = bind-Costs (prepare-Costs attempt) (λ cmd.
          catch-Costs
            (bind-Costs (h.registration_cmd cmd) (λ u. bind-Costs h.remove (λ u. computed-Costs)))
            keep_problem-Costs)

      pause_for-Costs :
          (n seconds : ℕ) (next : Call W (Unit {0})) (o : Option Exn)
          → Costs count n next
          → Costs count n (pause_for steps seconds next o)
      pause_for-Costs n seconds next none k =
          more-Costs {m = 0} {n = n} (omega arith) computed-Costs
      pause_for-Costs n seconds next (some e) k =
          more-Costs {m = 0 + n} {n = n} (omega arith) (bind-Costs (h.sleep seconds) (λ u. k))

      in_turn-Costs : (turns : List (ℕ × ℕ)) → Costs count (length turns * 3) (in_turn steps turns)
      unfolding in_turn
      in_turn-Costs [] = computed-Costs
      in_turn-Costs ((attempt, seconds) ∷ rest) =
          more-Costs {m = 3 + length rest * 3} {n = suc (length rest) * 3} (omega arith) (
            bind-Costs (attempt_once-Costs attempt)
              (λ o. pause_for-Costs (length rest * 3) seconds _ o (in_turn-Costs rest)))

      -- Where only registrations are counted, each as three at most, `register_system` adds nine at
      -- most, however it ends.
      pub register_system-Costs : (w : W) → count (register_system steps w).1 ≤ count w + 9
      unfolding register_system
      register_system-Costs w =
          rw (register_loop-in_turn steps 0)
            ((in_turn-Costs ((0, 5) ∷ (1, 11) ∷ (2, 23) ∷ [])).bound w)
