-- ===== src/Subscription/Register.antt =====
-- The call of a RegistrationCommand (convert2rhel/subscription.py, `__call__`): a private bus is
-- started, used and shut down.
use convert2rhel.Prelude.{
  String, List, ◌∷◌, has_items, ◌==◌, string_eq, Exn, Result, ok, raise, value_error, dbus_error,
  if◌then◌else◌,
}
use convert2rhel.Prelude.Calls.{Call, ◌>>=◌, ◌>>◌, computed, throw, finally, do_nothing}
use convert2rhel.Subscription.Commands.{SubscriptionManager, must_run, is_registered}
use convert2rhel.Subscription.Command.{
  RegistrationCommand, RegisterRequest, connection_opts, config_args, request_of,
}

-- The objects of dbus
pub record Bus (W : Type 0) : Type 0 where
  -- `SystemBus()` and its object RegisterServer
  pub get_register_server : Call W (Unit {0})
  pub start : Call W String
  pub connect : String → Call W (Unit {0})
  pub call_blocking : RegisterRequest → Call W (Unit {0})
  pub stop : Call W (Unit {0})

module _ {W : Type 0} (sys : SubscriptionManager W) (bus : Bus W) where
  abbrev Do : Type 0
  Do = Call W (Unit {0})

  unfoldable pub set_config : List (String × String) → Do
  set_config opts =
      if has_items opts
      then (do
        args ← computed (config_args opts)
        must_run sys ("subscription-manager" ∷ "config" ∷ args) value_error)
      else do_nothing

  -- `_set_connection_opts_in_config`
  unfoldable pub set_connection_opts_in_config : RegistrationCommand → Do
  set_connection_opts_in_config c = set_config (connection_opts c)

  abbrev no_reply : String
  no_reply = "org.freedesktop.DBus.Error.NoReply"

  -- The system may be registered although there was no reply.
  unfoldable pub without_reply : RegistrationCommand → Exn → Do
  without_reply c e = do
    set_connection_opts_in_config c
    registered ← is_registered sys
    if registered then do_nothing else throw e

  -- `except DBusException`
  unfoldable pub on_error : RegistrationCommand → Exn → Do
  on_error c (dbus_error name) =
      if name == no_reply then without_reply c (dbus_error name) else throw (dbus_error name)
  on_error c e = throw e

  -- `try: ... except DBusException: ... else: ...`
  abbrev pub after_request : RegistrationCommand → Result (Unit {0}) → Do
  after_request c (ok done) = set_connection_opts_in_config c
  after_request c (raise e) = on_error c e

  unfoldable pub send : RegistrationCommand → Do
  send c w = let (r, w') = bus.call_blocking (request_of c) w in after_request c r w'

  -- `__call__`
  unfoldable pub call_command : RegistrationCommand → Do
  call_command c = do
    bus.get_register_server
    address ← bus.start
    finally (bus.connect address >> send c) bus.stop
