-- ===== src/Subscription/Attempts.antt =====
-- `register_system` of convert2rhel/subscription.py, which tries three times.
use convert2rhel.Prelude.{
  ℕ, zero, suc, String, Bool, Option, none, some, List, [], ◌∷◌, ltb, leb, Exn, is_exception,
  Result, ok, raise, critical_error, os_error, unregister_error, stop_rhsm_error, index_error,
  other, if◌then◌else◌,
}
use convert2rhel.Prelude.Calls.{Call, ◌>>=◌, ◌>>◌, computed, pure, throw, catch, do_nothing}
use convert2rhel.Subscription.Commands.{Options, SubscriptionManager, unregister_system, stop_rhsm}
use convert2rhel.Subscription.Command.{RegistrationCommand, from_tool_opts}
use convert2rhel.Subscription.Register.{Bus, call_command}

-- What one attempt calls, over the commands `C`
pub record Steps (W C : Type 0) : Type 0 where
  pub unregister : Call W (Unit {0})
  pub stop : Call W (Unit {0})
  pub gather : Call W C
  -- `os_release_file.restore(rollback=False)` and `os_release_file.remove()`
  pub restore_os_release : Call W (Unit {0})
  pub remove_os_release : Call W (Unit {0})
  pub registration_cmd : C → Call W (Unit {0})
  pub sleep : ℕ → Call W (Unit {0})

abbrev pub max_num_of_attempts_to_subscribe : ℕ
max_num_of_attempts_to_subscribe = 3

abbrev pub registration_attempt_delays : List ℕ
registration_attempt_delays = 5 ∷ 11 ∷ 23 ∷ []

-- `items[i]`
abbrev pub item_at : List ℕ → ℕ → Result ℕ
item_at [] i = raise (index_error "list index out of range")
item_at (x ∷ xs) zero = ok x
item_at (x ∷ xs) (suc i) = item_at xs i

module _ {W C : Type 0} (steps : Steps W C) where
  abbrev Do : Type 0
  Do = Call W (Unit {0})

  abbrev pub pass_unregister_error : Exn → Do
  pass_unregister_error unregister_error = do_nothing
  pass_unregister_error e = throw e

  abbrev pub pass_stop_rhsm_error : Exn → Do
  pass_stop_rhsm_error stop_rhsm_error = do_nothing
  pass_stop_rhsm_error e = throw e

  abbrev pub restore_failed : Exn → Do
  restore_failed os_error = throw critical_error
  restore_failed e = throw e

  -- The file is restored in the first attempt only.
  unfoldable pub restore_first : ℕ → Do
  restore_first attempt =
      if leb attempt 0 then catch steps.restore_os_release restore_failed else do_nothing

  unfoldable pub prepare : ℕ → Call W C
  prepare attempt = do
    catch steps.unregister pass_unregister_error
    catch steps.stop pass_stop_rhsm_error
    cmd ← steps.gather
    restore_first attempt
    pure cmd

  -- `except KeyboardInterrupt: raise` and `except Exception`: the problem is kept.
  abbrev pub keep_problem : Exn → Call W (Option Exn)
  keep_problem e = if is_exception e then pure (some e) else throw e

  unfoldable pub try_register : C → Call W (Option Exn)
  try_register cmd =
      catch (steps.registration_cmd cmd >> (steps.remove_os_release >> pure none)) keep_problem

  -- One round of the loop, up to the pause
  unfoldable pub attempt_once : ℕ → Call W (Option Exn)
  attempt_once attempt = prepare attempt >>= try_register

  abbrev pub pause_then : ℕ → Do → Option Exn → Do
  pause_then attempt next none = do_nothing
  pause_then attempt next (some problem) = do
    seconds ← computed (item_at registration_attempt_delays attempt)
    steps.sleep seconds
    next

  -- The while loop, on a bound of its rounds
  unfoldable pub register_loop : ℕ → ℕ → Do
  register_loop zero attempt = throw (other "out of fuel")
  register_loop (suc n) attempt =
      let rest = register_loop n (suc attempt) in
      if ltb attempt max_num_of_attempts_to_subscribe
      then (attempt_once attempt >>= pause_then attempt rest)
      else throw critical_error

  -- `register_system`
  unfoldable pub register_system : Do
  register_system = register_loop (suc max_num_of_attempts_to_subscribe) 0

-- The steps of the program
unfoldable pub rhsm_steps :
    {W : Type 0}
    → SubscriptionManager W
    → Bus W
    → (String → Bool → Call W String)
    → ℕ
    → Options
    → (restore remove : Call W (Unit {0})) → (ℕ → Call W (Unit {0}))
    → Steps W RegistrationCommand
rhsm_steps sys bus prompt_user n opts restore remove sleep = record {
  unregister = unregister_system sys;
  stop = stop_rhsm sys;
  gather = from_tool_opts prompt_user n opts;
  restore_os_release = restore;
  remove_os_release = remove;
  registration_cmd = call_command sys bus;
  sleep = sleep;
}
