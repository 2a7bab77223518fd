-- ===== src/Subscription/Requests.antt =====
-- How many requests register_system sends over D-Bus (convert2rhel/subscription.py): the loop of
-- Attempts with the commands of Commands, Command and Register.
use convert2rhel.Prelude.{
  ℕ, zero, suc, ◌+◌, ◌≤◌, String, Bool, true, false, List, given, truthy, has_items, ◌==◌, nat_eq,
  string_eq, Exn, Result, ok, raise, value_error, unregister_error, stop_rhsm_error, dbus_error,
  arith,
}
use convert2rhel.Prelude.Calls.{Call}
use convert2rhel.Prelude.Costs.{Costs, computed-Costs, bind-Costs, if-Costs, finally-Costs}
use convert2rhel.Subscription.Commands.{
  Options, SubscriptionManager, must_run, unregister_if, unregister_system, stop_rhsm,
  is_registered,
}
use convert2rhel.Subscription.Command.{
  RegistrationCommand, prompt_until, from_tool_opts, RegisterRequest, connection_opts, request_of,
}
use convert2rhel.Subscription.Register.{
  Bus, set_config, set_connection_opts_in_config, without_reply, on_error, after_request, send,
  call_command,
}
use convert2rhel.Subscription.Attempts.{register_system, rhsm_steps}
use convert2rhel.Subscription.Bound.{register_system-Costs}

module _ {W : Type 0} (sys : SubscriptionManager W) (bus : Bus W)
    (prompt_user : String → Bool → Call W String) (restore remove : Call W (Unit {0}))
    (sleep : ℕ → Call W (Unit {0})) (requests : W → ℕ) where
  -- `Start` and `Stop` of the registration server and a call on its private bus add one to the count,
  -- and the other calls of the system add nothing.
  pub record IsRequestCount : Type 0 where
    pub run_subprocess : (cmd : List String) → Costs requests 0 (sys.run_subprocess cmd)
    pub prompt :
        (question : String) (secret : Bool) → Costs requests 0 (prompt_user question secret)
    pub restores : Costs requests 0 restore
    pub removes : Costs requests 0 remove
    pub sleeps : (seconds : ℕ) → Costs requests 0 (sleep seconds)
    pub get_register_server : Costs requests 0 bus.get_register_server
    pub start : Costs requests 1 bus.start
    pub connect : (address : String) → Costs requests 0 (bus.connect address)
    pub stop : Costs requests 1 bus.stop
    pub call_blocking : (r : RegisterRequest) → Costs requests 1 (bus.call_blocking r)

  module _ (h : IsRequestCount) where
    must_run-Costs : (cmd : List String) (e : Exn) → Costs requests 0 (must_run sys cmd e)
    unfolding must_run
    must_run-Costs cmd e = bind-Costs (h.run_subprocess cmd) (λ answer. computed-Costs)

    unregister_if-Costs : (answer : String × ℕ) → Costs requests 0 (unregister_if sys answer)
    unfolding unregister_if
    unregister_if-Costs (output, code) =
        if-Costs (code == 0) (must_run-Costs _ unregister_error) computed-Costs

    unregister_system-Costs : Costs requests 0 (unregister_system sys)
    unfolding unregister_system
    unregister_system-Costs = bind-Costs (h.run_subprocess _) unregister_if-Costs

    stop_rhsm-Costs : Costs requests 0 (stop_rhsm sys)
    unfolding stop_rhsm
    stop_rhsm-Costs = must_run-Costs _ stop_rhsm_error

    prompt_until-Costs :
        (n : ℕ) (question : String) (secret : Bool)
        → Costs requests 0 (prompt_until prompt_user n question secret)
    unfolding prompt_until
    prompt_until-Costs zero question secret = computed-Costs
    prompt_until-Costs (suc n) question secret =
        bind-Costs (h.prompt question secret)
          (λ answer. if-Costs (truthy answer) computed-Costs (prompt_until-Costs n question secret))

    from_tool_opts-Costs :
        (n : ℕ) (opts : Options) → Costs requests 0 (from_tool_opts prompt_user n opts)
    unfolding from_tool_opts
    from_tool_opts-Costs n opts = if-Costs (given opts.activation_key) computed-Costs (
        bind-Costs
          (if-Costs (given opts.username) computed-Costs (prompt_until-Costs n "Username: " false))
          (λ username.
            bind-Costs
              (if-Costs (given opts.password) computed-Costs
                (prompt_until-Costs n "Password: " true))
              (λ password. computed-Costs)))

    set_config-Costs : (opts : List (String × String)) → Costs requests 0 (set_config sys bus opts)
    unfolding set_config
    set_config-Costs opts =
        if-Costs (has_items opts) (bind-Costs computed-Costs (λ args. must_run-Costs _ value_error))
          computed-Costs

    set_opts-Costs :
        (c : RegistrationCommand) → Costs requests 0 (set_connection_opts_in_config sys bus c)
    unfolding set_connection_opts_in_config
    set_opts-Costs c = set_config-Costs (connection_opts c)

    is_registered-Costs : Costs requests 0 (is_registered sys)
    unfolding is_registered
    is_registered-Costs = bind-Costs (h.run_subprocess _) (λ answer. computed-Costs)

    without_reply-Costs :
        (c : RegistrationCommand) (e : Exn) → Costs requests 0 (without_reply sys bus c e)
    unfolding without_reply
    without_reply-Costs c e =
        bind-Costs (set_opts-Costs c)
          (λ u. bind-Costs is_registered-Costs (λ b. if-Costs b computed-Costs computed-Costs))

    on_error-Costs : (c : RegistrationCommand) (e : Exn) → Costs requests 0 (on_error sys bus c e)
    unfolding on_error
    on_error-Costs c (dbus_error name) =
        if-Costs (name == "org.freedesktop.DBus.Error.NoReply")
          (without_reply-Costs c (dbus_error name)) computed-Costs
    on_error-Costs c e = record { bound = λ w. ground arith }

    after_request-Costs :
        (c : RegistrationCommand) (r : Result (Unit {0}))
        → Costs requests 0 (after_request sys bus c r)
    after_request-Costs c (ok u) = set_opts-Costs c
    after_request-Costs c (raise e) = on_error-Costs c e

    send-Costs : (c : RegistrationCommand) → Costs requests 1 (send sys bus c)
    unfolding send
    send-Costs c = record {
      bound = λ w.
          let (r, w') = bus.call_blocking (request_of c) w in
          omega
            (arith, (after_request-Costs c r).bound w', (h.call_blocking (request_of c)).bound w);
    }

    call_command-Costs : (c : RegistrationCommand) → Costs requests 3 (call_command sys bus c)
    unfolding call_command
    call_command-Costs c = bind-Costs h.get_register_server (λ u.
        bind-Costs h.start
          (λ address. finally-Costs (bind-Costs (h.connect address) (λ u. send-Costs c)) h.stop))

    -- Where each `Start` and `Stop` of the registration server and each call on its private bus is
    -- counted, `register_system` makes nine of them at most, whatever the commands return and however
    -- it ends.
    pub register_system-requests :
        (n : ℕ) (opts : Options) (w : W)
        → requests
            (register_system (rhsm_steps sys bus prompt_user n opts restore remove sleep) w).1
          ≤ requests w + 9
    unfolding rhsm_steps
    register_system-requests n opts w =
        register_system-Costs (rhsm_steps sys bus prompt_user n opts restore remove sleep) requests
          (record {
            unregister = unregister_system-Costs;
            stop = stop_rhsm-Costs;
            gather = from_tool_opts-Costs n opts;
            restore = h.restores;
            remove = h.removes;
            sleep = h.sleeps;
            registration_cmd = call_command-Costs;
          })
          w
