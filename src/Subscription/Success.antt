-- ===== src/Subscription/Success.antt =====
-- What `register_system` of convert2rhel/subscription.py has done where it returns.
use convert2rhel.Prelude.{
  ℕ, Option, none, some, List, [], ◌∷◌, Exn, Result, ok, raise, ◌≡◌, refl, ap, sym, ◌∙◌,
  keyboard_interrupt, system_exit,
}
use convert2rhel.Prelude.Calls.{Call, ◌>>◌, pure, catch}
use convert2rhel.Prelude.Costs.{Leaves, At, bind-Leaves, any-Leaves, At-ok}
use convert2rhel.Subscription.Attempts.{
  Steps, prepare, keep_problem, try_register, attempt_once, register_system,
}
use convert2rhel.Subscription.Retries.{pause_for, in_turn, register_loop-in_turn}

module _ {W C : Type 0} (steps : Steps W C) where
  -- A registration that returned, with the file /etc/os-release removed behind it
  pub record Registered (w' : W) : Type 0 where
    pub cmd : C
    pub before : W
    pub between : W
    pub registered : steps.registration_cmd cmd before ≡ (ok tt, between)
    pub removed : steps.remove_os_release between ≡ (ok tt, w')

  -- What an attempt leaves where it keeps no problem
  abbrev IsSuccess : Option Exn → W → Type 0
  IsSuccess none w' = Registered w'
  IsSuccess (some problem) w' = Unit

  keep_problem-IsSuccess : (e : Exn) (w : W) → At IsSuccess (keep_problem steps e w)
  keep_problem-IsSuccess keyboard_interrupt w = tt
  keep_problem-IsSuccess system_exit w = tt
  keep_problem-IsSuccess e w = tt

  removes :
      (cmd : C) (w0 w1 : W) (end : Result (Unit {0}) × W)
      → steps.registration_cmd cmd w0 ≡ (ok tt, w1)
      → steps.remove_os_release w1 ≡ end
      → At IsSuccess (catch (λ w. ((λ _. end) >> pure none) w) (keep_problem steps) w1)
  removes cmd w0 w1 (ok u, w2) e e2 = record {
    cmd = cmd;
    before = w0;
    between = w1;
    registered = e;
    removed = e2;
  }
  removes cmd w0 w1 (raise x, w2) e e2 = keep_problem-IsSuccess x w2

  registers :
      (cmd : C) (w0 : W) (end : Result (Unit {0}) × W)
      → steps.registration_cmd cmd w0 ≡ end
      → At IsSuccess (
          catch
            (λ w. ((λ _. end) >> (steps.remove_os_release >> pure none)) w)
            (keep_problem steps)
            w0)
  registers cmd w0 (ok u, w1) e = removes cmd w0 w1 (steps.remove_os_release w1) e refl
  registers cmd w0 (raise x, w1) e = keep_problem-IsSuccess x w1

  attempt_once-IsSuccess : (attempt : ℕ) → Leaves IsSuccess (attempt_once steps attempt)
  unfolding attempt_once try_register
  attempt_once-IsSuccess attempt =
      bind-Leaves {Q = λ cmd w. Unit} (try_register steps) (any-Leaves (prepare steps attempt))
        (λ cmd w u. registers cmd w (steps.registration_cmd cmd w) refl)

  pause_for-Registered :
      (seconds : ℕ) (next : Call W (Unit {0})) (o : Option Exn) (w : W)
      → Leaves (λ u. Registered) next
      → IsSuccess o w
      → At (λ u. Registered) (pause_for steps seconds next o w)
  pause_for-Registered seconds next none w h s = s
  pause_for-Registered seconds next (some e) w h s =
      (bind-Leaves {Q = λ u w. Unit} {P = λ u. Registered} (λ u. next)
          (any-Leaves (steps.sleep seconds)) (λ u w q. h.post w)).post
        w

  in_turn-Registered : (turns : List (ℕ × ℕ)) → Leaves (λ u. Registered) (in_turn steps turns)
  unfolding in_turn
  in_turn-Registered [] = record { post = λ w. tt }
  in_turn-Registered ((attempt, seconds) ∷ rest) =
      bind-Leaves {Q = IsSuccess} (pause_for steps seconds (in_turn steps rest))
        (attempt_once-IsSuccess attempt)
        (λ o w. pause_for-Registered seconds (in_turn steps rest) o w (in_turn-Registered rest))

  -- Where `register_system` returns, the last calls that it made are a registration that returned
  -- and the removal of /etc/os-release, which returned too.
  pub register_system-Registered :
      (w w' : W) → register_system steps w ≡ (ok tt, w') → Registered w'
  unfolding register_system
  register_system-Registered w w' e =
      At-ok (λ u. Registered) tt w' (in_turn steps ((0, 5) ∷ (1, 11) ∷ (2, 23) ∷ []) w)
        ((in_turn-Registered ((0, 5) ∷ (1, 11) ∷ (2, 23) ∷ [])).post w)
        (ap (λ run. run w) (sym (register_loop-in_turn steps 0)) ∙ e)
