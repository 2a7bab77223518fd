-- ===== src/Subscription/Tests.antt =====
-- Runs of convert2rhel/subscription.py on worlds that are counts.
use convert2rhel.Prelude.{
  inl, ℕ, zero, suc, ◌≤◌, String, Bool, true, false, not, ◌&&◌, none, some, List, [], ◌∷◌, ltb,
  contains, has_items, string_eq, nat_eq, ok, raise, other, dbus_error, if◌then◌else◌, ◌≡◌, refl,
  arith,
}
use convert2rhel.Prelude.Calls.{Call, pure}
use convert2rhel.Subscription.Commands.{Options, SubscriptionManager, unregister_system}
use convert2rhel.Subscription.Command.{
  RegistrationCommand, by_user, new, from_tool_opts, prompt_until, request_of,
}
use convert2rhel.Subscription.Register.{Bus, call_command}
use convert2rhel.Subscription.Attempts.{
  Steps, restore_first, prepare, try_register, attempt_once, register_loop, register_system,
  rhsm_steps,
}
use convert2rhel.Subscription.Needed.{
  Installing, missing_pkgs, relevant_subscription_manager_pkgs, needed_subscription_manager_pkgs,
}
use convert2rhel.Subscription.Retries.{in_turn, register_loop-in_turn}
use convert2rhel.Subscription.Bound.{IsCounted, register_system-Costs}
use convert2rhel.Subscription.Requests.{IsRequestCount, register_system-requests}
use convert2rhel.Subscription.Success.{Registered, register_system-Registered}
use convert2rhel.Subscription.Shutdown.{IsServer, call_command-stops}
use convert2rhel.Subscription.Arguments.{is_typed, from_tool_opts-is_typed}
use convert2rhel.Subscription.Missing.{needed_subscription_manager_pkgs_iff}
use convert2rhel.Subscription.Rollback.{rhsm_of, restore_system-returns}
use convert2rhel.Backup.Subscriptions.{restore_system}

program : Unit {0}
unfolding restore_first prepare try_register attempt_once register_loop register_system missing_pkgs
    relevant_subscription_manager_pkgs needed_subscription_manager_pkgs prompt_until from_tool_opts
    new request_of string_eq nat_eq
program = tt

abbrev nothing_done : Call ℕ (Unit {0})
nothing_done = pure tt

-- The first registration fails.
abbrev busy_server : Steps ℕ String
busy_server = record {
  unregister = nothing_done;
  stop = nothing_done;
  gather = pure "admin";
  restore_os_release = nothing_done;
  remove_os_release = nothing_done;
  registration_cmd = λ cmd w. (if ltb w 1 then raise (other "busy") else ok tt, suc w);
  sleep = λ seconds. nothing_done;
}

register_loop-in_turn_example :
    register_loop busy_server 6 0 ≡ in_turn busy_server ((0, 5) ∷ (1, 11) ∷ (2, 23) ∷ [])
register_loop-in_turn_example = register_loop-in_turn busy_server 2

busy_server-IsCounted : IsCounted busy_server (λ w. w)
busy_server-IsCounted = record {
  unregister = record { bound = λ w. omega arith };
  stop = record { bound = λ w. omega arith };
  gather = record { bound = λ w. omega arith };
  restore = record { bound = λ w. omega arith };
  remove = record { bound = λ w. omega arith };
  sleep = λ seconds. record { bound = λ w. omega arith };
  registration_cmd = λ cmd. record { bound = λ w. omega arith };
}

register_system-Costs_test : (register_system busy_server 0).1 ≤ 9
register_system-Costs_test = register_system-Costs busy_server (λ w. w) busy_server-IsCounted 0

register_busy : register_system busy_server 0 ≡ (ok tt, 2)
unfolding program
register_busy = refl

register_system-Registered_example : Registered busy_server 2
register_system-Registered_example = register_system-Registered busy_server 0 2 register_busy

abbrev quiet_system : SubscriptionManager ℕ
quiet_system = record {
  run_subprocess = λ cmd. pure ("", 0);
  lower = λ s. s;
  installed_pkgs = λ pkg. pure (if contains ("json-c.x86_64" ∷ []) pkg then pkg ∷ [] else []);
}

abbrev one_less : ℕ → ℕ
one_less zero = zero
one_less (suc n) = n

abbrev private_bus : Bus ℕ
private_bus = record {
  get_register_server = nothing_done;
  start = λ w. (ok "unix:abstract=/tmp", suc w);
  connect = λ address. nothing_done;
  call_blocking = λ request w. (raise (other "bad credentials"), w);
  stop = λ w. (ok tt, one_less w);
}

private_bus-IsServer : IsServer quiet_system private_bus (λ w. w)
private_bus-IsServer = record {
  get_register_server = record { kept = λ w. refl };
  run_subprocess = λ cmd. record { kept = λ w. refl };
  connect = λ address. record { kept = λ w. refl };
  call_blocking = λ request. record { kept = λ w. refl };
  started = λ w w' address e. ground arith;
  not_started = λ w w' x e. ground arith;
  stopped = λ w n e. rw e refl;
}

abbrev user_options : Options
user_options = record {
  org = none;
  activation_key = none;
  username = some "admin";
  password = some "secret";
  rhsm_hostname = none;
  rhsm_port = none;
  rhsm_prefix = none;
  pool = none;
  auto_attach = false;
  no_rhsm = false;
  disablerepo = [];
  enablerepo = [];
}

abbrev user_command : RegistrationCommand
user_command = by_user user_options "admin" "secret"

call_command-stops_example : (call_command quiet_system private_bus user_command 0).1 ≡ zero
call_command-stops_example =
    call_command-stops quiet_system private_bus (λ w. w) private_bus-IsServer user_command 0

abbrev answer_admin : String → Bool → Call ℕ String
answer_admin question secret = pure "admin"

gather_user : from_tool_opts answer_admin 1 user_options 0 ≡ (ok user_command, 0)
unfolding program
gather_user = refl

from_tool_opts-is_typed_example : is_typed (request_of user_command) ≡ true
from_tool_opts-is_typed_example =
    from_tool_opts-is_typed answer_admin 1 user_options 0 0 user_command gather_user

abbrev rhel_8 : Installing ℕ
rhel_8 = record {
  id = "centos";
  major = 8;
  is_rpm_installed = λ pkg. pure false;
  backedup_reposdir = "/var/lib/convert2rhel/backup";
  dirname = λ path. path;
  download_repofile = λ url. pure "";
  write_temporary_repofile = λ contents. pure "/tmp/repo";
  push_package_set = λ pkgs setopts. nothing_done;
}

needed_subscription_manager_pkgs_iff_example :
    (needed : List String) × (needed_subscription_manager_pkgs quiet_system rhel_8 (λ xs. xs) 0
      ≡ (ok needed, 0))
    × ((p : String)
        → contains needed p ≡ (
            contains (relevant_subscription_manager_pkgs 8 false) p
            && not (has_items (if contains ("json-c.x86_64" ∷ []) p then p ∷ [] else []))))
needed_subscription_manager_pkgs_iff_example =
    needed_subscription_manager_pkgs_iff quiet_system
      (λ p. if contains ("json-c.x86_64" ∷ []) p then p ∷ [] else []) 0 rhel_8 (λ xs. xs) false
      (λ xs p. refl) (record { answer = λ pkg. refl }) refl

-- Each call on the private bus is refused, and counted with those of the registration server.
abbrev refusing_bus : Bus ℕ
refusing_bus = record {
  get_register_server = nothing_done;
  start = λ w. (ok "unix:abstract=/tmp", suc w);
  connect = λ address. nothing_done;
  call_blocking = λ request w. (raise (dbus_error "refused"), suc w);
  stop = λ w. (ok tt, suc w);
}

refusing_bus-IsRequestCount :
    IsRequestCount quiet_system refusing_bus answer_admin nothing_done nothing_done
      (λ seconds. nothing_done)
      (λ w. w)
refusing_bus-IsRequestCount = record {
  run_subprocess = λ cmd. record { bound = λ w. omega arith };
  prompt = λ question secret. record { bound = λ w. omega arith };
  restores = record { bound = λ w. omega arith };
  removes = record { bound = λ w. omega arith };
  sleeps = λ seconds. record { bound = λ w. omega arith };
  get_register_server = record { bound = λ w. omega arith };
  start = record { bound = λ w. omega arith };
  connect = λ address. record { bound = λ w. omega arith };
  stop = record { bound = λ w. omega arith };
  call_blocking = λ request. record { bound = λ w. omega arith };
}

register_system-requests_example :
    (register_system
      (rhsm_steps quiet_system refusing_bus answer_admin 1 user_options nothing_done nothing_done
        (λ seconds. nothing_done))
      0).1
    ≤ 9
register_system-requests_example =
    register_system-requests quiet_system refusing_bus answer_admin nothing_done nothing_done
      (λ seconds. nothing_done) (λ w. w) refusing_bus-IsRequestCount 1 user_options 0

-- The command `subscription-manager unregister` fails.
abbrev failing_system : SubscriptionManager ℕ
failing_system = record {
  run_subprocess = λ cmd. pure ("", if contains cmd "unregister" then 1 else 0);
  lower = λ s. s;
  installed_pkgs = λ pkg. pure [];
}

restore_system-returns_example :
    restore_system
      (rhsm_of failing_system user_options nothing_done (λ output. []))
      (record { enabled = true })
      0
    ≡ (ok tt, record { enabled = false }, (unregister_system failing_system 0).1)
restore_system-returns_example =
    restore_system-returns failing_system
      (λ cmd w. inl (("", if contains cmd "unregister" then 1 else 0), refl)) user_options
      nothing_done (λ output. []) 0
