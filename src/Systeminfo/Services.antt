-- ===== src/Systeminfo/Services.antt =====
-- Commands that tell of the system (convert2rhel/systeminfo.py).
use convert2rhel.Prelude.{
  ℕ, zero, suc, String, Bool, true, false, Option, none, some, List, [], ◌∷◌, contains, ltb, ◌==◌,
  nat_eq, string_eq, ◌+◌, other, if◌then◌else◌,
}
use convert2rhel.Prelude.Text.{starts_with, split_first}
use convert2rhel.Prelude.Calls.{Call, ◌>>=◌, ◌>>◌, pure, throw, do_nothing}

-- Whether the state says that a service runs or not
abbrev pub running_state : String → Option Bool
running_state state =
    if state == "active"
    then some true
    else if contains ("inactive" ∷ "deactivating" ∷ "failed" ∷ []) state
    then some false
    else none

abbrev state_in : Option (String × String) → Option Bool
state_in none = none
state_in (some (name, state)) = running_state state

abbrev or_else : Option Bool → Option Bool → Option Bool
or_else none rest = rest
or_else (some b) rest = some b

-- The loop over the lines, which the first state that is told apart ends
unfoldable pub running_in : List String → Option Bool
running_in [] = none
running_in (line ∷ lines) =
    or_else (if starts_with "ActiveState=" line then state_in (split_first "=" line) else none)
      (running_in lines)

module _ {W : Type 0} (run_subprocess : List String → Call W (String × ℕ)) where
  -- `is_systemd_managed_service_running`
  unfoldable pub is_systemd_managed_service_running :
      (String → List String) → String → Call W (Option Bool)
  is_systemd_managed_service_running splitlines service = do
    answer ← run_subprocess ("/usr/bin/systemctl" ∷ "show" ∷ "-p" ∷ "ActiveState" ∷ service ∷ [])
    pure (running_in (splitlines answer.0))

  unfoldable pub is_rpm_installed : String → Call W Bool
  is_rpm_installed name = do
    answer ← run_subprocess ("rpm" ∷ "-q" ∷ name ∷ [])
    pure (answer.1 == 0)

  -- `generate_rpm_va`, with the function that writes the output to the log
  unfoldable pub generate_rpm_va : Bool → (String → Call W (Unit {0})) → Call W (Unit {0})
  generate_rpm_va no_rpm_va store =
      if no_rpm_va
      then do_nothing
      else (run_subprocess ("rpm" ∷ "-Va" ∷ "--nodeps" ∷ []) >>= λ answer. store answer.0)

abbrev pub check_dbus_status_retries : ℕ
check_dbus_status_retries = 3

-- `2 ** n`
abbrev pub power_of_two : ℕ → ℕ
power_of_two zero = 1
power_of_two (suc n) = power_of_two n + power_of_two n

module _ {W : Type 0} (status : Call W (Option Bool)) (sleep : ℕ → Call W (Unit {0})) where
  abbrev pub unless_known : ℕ → Call W Bool → Option Bool → Call W Bool
  unless_known retries next (some running) = pure running
  unless_known retries next none = sleep (power_of_two retries) >> next

  -- The while loop, on a bound of its rounds
  unfoldable pub dbus_loop : ℕ → ℕ → Call W Bool
  dbus_loop zero retries = throw (other "out of fuel")
  dbus_loop (suc n) retries =
      let rest = dbus_loop n (suc retries) in
      if ltb retries check_dbus_status_retries
      then (status >>= unless_known retries rest)
      else pure false

  -- `_is_dbus_running`
  unfoldable pub is_dbus_running : Call W Bool
  is_dbus_running = dbus_loop (suc check_dbus_status_retries) 0
