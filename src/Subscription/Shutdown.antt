-- ===== src/Subscription/Shutdown.antt =====
-- The private bus behind a registration (convert2rhel/subscription.py).
use convert2rhel.Prelude.{
  ℕ, suc, String, List, Exn, Result, ok, raise, dbus_error, value_error, has_items, ◌==◌, string_eq,
  nat_eq, ◌≡◌, refl, ◌∙◌, arith,
}
use convert2rhel.Prelude.Calls.{Call, ◌>>=◌, ◌>>◌, finally}
use convert2rhel.Prelude.Costs.{Keeps, computed-Keeps, bind-Keeps, if-Keeps}
use convert2rhel.Subscription.Commands.{SubscriptionManager, succeed_or, must_run, is_registered}
use convert2rhel.Subscription.Command.{
  RegistrationCommand, RegisterRequest, connection_opts, config_args, request_of,
}
use convert2rhel.Subscription.Register.{
  Bus, set_config, set_connection_opts_in_config, without_reply, on_error, after_request, send,
  call_command,
}

module _ {W : Type 0} (sys : SubscriptionManager W) (bus : Bus W) (running : W → ℕ) where
  -- `start` starts a server, `stop` ends one, and nothing else does.
  pub record IsServer : Type 0 where
    pub get_register_server : Keeps running bus.get_register_server
    pub run_subprocess : (cmd : List String) → Keeps running (sys.run_subprocess cmd)
    pub connect : (address : String) → Keeps running (bus.connect address)
    pub call_blocking : (r : RegisterRequest) → Keeps running (bus.call_blocking r)
    pub started :
        (w w' : W) (address : String)
        → bus.start w ≡ (ok address, w')
        → running w' ≡ suc (running w)
    pub not_started : (w w' : W) (e : Exn) → bus.start w ≡ (raise e, w') → running w' ≡ running w
    pub stopped : (w : W) (n : ℕ) → running w ≡ suc n → running (bus.stop w).1 ≡ n

  module _ (h : IsServer) where
    must_run-Keeps : (cmd : List String) (e : Exn) → Keeps running (must_run sys cmd e)
    unfolding must_run
    must_run-Keeps cmd e =
        bind-Keeps (h.run_subprocess cmd) (λ answer. computed-Keeps {r = succeed_or e answer})

    set_config-Keeps : (opts : List (String × String)) → Keeps running (set_config sys bus opts)
    unfolding set_config
    set_config-Keeps opts =
        if-Keeps (has_items opts)
          (bind-Keeps (computed-Keeps {r = config_args opts})
            (λ args. must_run-Keeps _ value_error))
          (computed-Keeps {r = ok tt})

    set_opts-Keeps :
        (c : RegistrationCommand) → Keeps running (set_connection_opts_in_config sys bus c)
    unfolding set_connection_opts_in_config
    set_opts-Keeps c = set_config-Keeps (connection_opts c)

    is_registered-Keeps : Keeps running (is_registered sys)
    unfolding is_registered
    is_registered-Keeps =
        bind-Keeps (h.run_subprocess _) (λ answer. computed-Keeps {r = ok (answer.1 == 0)})

    without_reply-Keeps :
        (c : RegistrationCommand) (e : Exn) → Keeps running (without_reply sys bus c e)
    unfolding without_reply
    without_reply-Keeps c e = bind-Keeps (set_opts-Keeps c) (λ u.
        bind-Keeps is_registered-Keeps
          (λ b. if-Keeps b (computed-Keeps {r = ok tt}) (computed-Keeps {r = raise e})))

    on_error-Keeps : (c : RegistrationCommand) (e : Exn) → Keeps running (on_error sys bus c e)
    unfolding on_error
    on_error-Keeps c (dbus_error name) =
        if-Keeps (name == "org.freedesktop.DBus.Error.NoReply")
          (without_reply-Keeps c (dbus_error name)) (computed-Keeps {r = raise (dbus_error name)})
    on_error-Keeps c e = record { kept = λ w. ground arith }

    after_request-Keeps :
        (c : RegistrationCommand) (r : Result (Unit {0}))
        → Keeps running (after_request sys bus c r)
    after_request-Keeps c (ok u) = set_opts-Keeps c
    after_request-Keeps c (raise e) = on_error-Keeps c e

    send-Keeps : (c : RegistrationCommand) → Keeps running (send sys bus c)
    unfolding send
    send-Keeps c = record {
      kept = λ w.
          let (r, w') = bus.call_blocking (request_of c) w in
          (after_request-Keeps c r).kept w' ∙ (h.call_blocking (request_of c)).kept w;
    }

    finally-running :
        (body : Call W (Unit {0})) (w : W) (n : ℕ)
        → Keeps running body
        → running w ≡ suc n
        → running (finally body bus.stop w).1 ≡ n
    finally-running body w n k e =
        go (body w).0 (bus.stop (body w).1) (h.stopped (body w).1 n (k.kept w ∙ e))
      where
        go :
            (r : Result (Unit {0})) (end : Result (Unit {0}) × W)
            → running end.1 ≡ n
            → running (finally (λ w. (r, w)) (λ w. end) w).1 ≡ n
        go r (ok u, w2) p = p
        go r (raise x, w2) p = p

    started-running :
        (c : RegistrationCommand) (w : W) (end : Result String × W)
        → bus.start w ≡ end
        → let rest : String → Call W (Unit {0}) =
            λ address. finally (bus.connect address >> send sys bus c) bus.stop in
          running (((λ w. end) >>= rest) w).1 ≡ running w
    started-running c w (ok address, w') e =
        finally-running (bus.connect address >> send sys bus c) w' (running w)
          (bind-Keeps (h.connect address) (λ u. send-Keeps c)) (h.started w w' address e)
    started-running c w (raise x, w') e = h.not_started w w' x e

    started-Keeps :
        (c : RegistrationCommand)
        → Keeps running
            (bus.start >>= λ address. finally (bus.connect address >> send sys bus c) bus.stop)
    started-Keeps c = record { kept = λ w. started-running c w (bus.start w) refl }

    call_command-Keeps : (c : RegistrationCommand) → Keeps running (call_command sys bus c)
    unfolding call_command
    call_command-Keeps c = bind-Keeps h.get_register_server (λ u. started-Keeps c)

    -- Where the server of the private bus is started by `start` and ended by `stop` only, as many
    -- servers run behind a registration as in front of it, however it ends.
    pub call_command-stops :
        (c : RegistrationCommand) (w : W) → running (call_command sys bus c w).1 ≡ running w
    call_command-stops c = (call_command-Keeps c).kept
