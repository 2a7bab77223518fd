-- ===== src/Subscription/Rollback.antt =====
-- The changes of the subscription (convert2rhel/backup/subscription.py) with the functions of
-- convert2rhel/subscription.py that they call.
use convert2rhel.Prelude.{
  ℕ, String, Bool, true, false, List, [], ◌∷◌, ◌==◌, nat_eq, string_eq, Bool-cases, inl, inr, ◌⊎◌,
  Exn, Result, ok, raise, unregister_error, os_error, ◌≡◌, refl, ap,
}
use convert2rhel.Prelude.Calls.{Call, ◌>>=◌, computed, pure, do_nothing}
use convert2rhel.Backup.Methods.{Method, call, catch, set}
use convert2rhel.Backup.Methods
use convert2rhel.Backup.Subscriptions.{Rhsm, SystemSubscription, handle_unregister, restore_system}
use convert2rhel.Subscription.Commands.{
  Options, SubscriptionManager, succeed_or, must_run, remove_subscription, auto_attach_subscription,
  unregister_if, unregister_system, attach_subscription, disable_repos, submgr_enable_repos,
}

abbrev pub is_unregister_error : Exn → Bool
is_unregister_error unregister_error = true
is_unregister_error e = false

-- The list of the repositories that are enabled, as `_get_enabled_repositories` asks for it
abbrev list_enabled : {W : Type 0} → SubscriptionManager W → Call W String
list_enabled sys =
    sys.run_subprocess ("subscription-manager" ∷ "repos" ∷ "--list-enabled" ∷ []) >>= λ answer.
    pure answer.0

-- What the changes call, as convert2rhel/subscription.py has it
unfoldable pub rhsm_of :
    {W : Type 0}
    → SubscriptionManager W
    → Options
    → Call W (Unit {0})
    → (String → List String)
    → Rhsm W
rhsm_of sys opts register_system repo_ids = record {
  register_system = register_system;
  attach_subscription = attach_subscription sys opts >>= λ attached. do_nothing;
  unregister_system = unregister_system sys;
  auto_attach_subscription = auto_attach_subscription sys;
  remove_subscription = remove_subscription sys;
  disable_repos = disable_repos sys opts;
  submgr_enable_repos = submgr_enable_repos sys;
  list_enabled = list_enabled sys;
  repo_ids = repo_ids;
  is_unregister_error = is_unregister_error;
}

module _ {W : Type 0} (sys : SubscriptionManager W) where
  -- A command ends, with any output and any code, or it cannot be started.
  abbrev pub Runs : Result (String × ℕ) → Type 0
  Runs r = ((answer : String × ℕ) × (r ≡ ok answer)) ⊎ (r ≡ raise os_error)

  -- The call returns, or raises the exception or an OSError.
  abbrev EndsBy : Exn → Result (Unit {0}) × W → Type 0
  EndsBy e end = (end.0 ≡ ok tt) ⊎ ((end.0 ≡ raise e) ⊎ (end.0 ≡ raise os_error))

  abbrev as_end : Result (String × ℕ) → Result (Unit {0})
  as_end (ok answer) = ok tt
  as_end (raise e) = raise e

  bind-EndsBy :
      (e : Exn) (next : String × ℕ → Call W (Unit {0})) (end : Result (String × ℕ) × W) (w : W)
      → Runs end.0
      → ((answer : String × ℕ) (w : W) → EndsBy e (next answer w))
      → EndsBy e (((λ _. end) >>= next) w)
  bind-EndsBy e next (ok answer, w1) w runs k = k answer w1
  bind-EndsBy e next (raise x, w1) w (inl (answer, h)) k = absurd cc
  bind-EndsBy e next (raise x, w1) w (inr h) k = inr (inr (ap as_end h))

  succeed_or-EndsBy : (e : Exn) (answer : String × ℕ) (w : W) → EndsBy e (succeed_or e answer, w)
  succeed_or-EndsBy e (output, code) w = elim (Bool-cases (code == 0)) [
    | inl z ↦ inl (rw z refl)
    | inr z ↦ inr (inl (rw z refl))
  ]

  module _ (runs : (cmd : List String) (w : W) → Runs (sys.run_subprocess cmd w).0) where
    must_run-EndsBy : (cmd : List String) (e : Exn) (w : W) → EndsBy e (must_run sys cmd e w)
    unfolding must_run
    must_run-EndsBy cmd e w =
        bind-EndsBy e (λ answer. computed (succeed_or e answer)) (sys.run_subprocess cmd w) w
          (runs cmd w) (succeed_or-EndsBy e)

    unregister_if-EndsBy :
        (answer : String × ℕ) (w : W) → EndsBy unregister_error (unregister_if sys answer w)
    unfolding unregister_if
    unregister_if-EndsBy (output, code) w = elim (Bool-cases (code == 0)) [
      | inl z ↦
          rw z (must_run-EndsBy ("subscription-manager" ∷ "unregister" ∷ []) unregister_error w)
      | inr z ↦ rw z (inl refl)
    ]

    unregister_system-EndsBy : (w : W) → EndsBy unregister_error (unregister_system sys w)
    unfolding unregister_system
    unregister_system-EndsBy w =
        let cmd = "rpm" ∷ "--quiet" ∷ "-q" ∷ "subscription-manager" ∷ [] in
        bind-EndsBy unregister_error (unregister_if sys) (sys.run_subprocess cmd w) w (runs cmd w)
          unregister_if-EndsBy

    module _ (opts : Options) (register : Call W (Unit {0})) (repo_ids : String → List String) where
      restored :
          (o : SystemSubscription) (w : W) (end : Result (Unit {0}) × W)
          → EndsBy unregister_error end
          → Methods.◌>>◌
              (catch (call (λ _. end)) (handle_unregister (rhsm_of sys opts register repo_ids)))
              (set (λ o. record o { enabled = false }))
              o
              w
            ≡ (ok tt, record { enabled = false }, end.1)
      unfolding handle_unregister rhsm_of
      restored o w (r, w') ends =
          let run : Result (Unit {0}) → Result (Unit {0}) × SystemSubscription × W = λ r.
            Methods.◌>>◌
              (catch (call (λ _. (r, w'))) (handle_unregister (rhsm_of sys opts register repo_ids)))
              (set (λ o. record o { enabled = false })) o w in
          elim ends [ inl e ↦ ap run e | inr (inl e) ↦ ap run e | inr (inr e) ↦ ap run e ]

      -- Where every command ends, with any output and any return code, or raises an OSError, the
      -- rollback of a system that was registered returns, and the change is no longer enabled: that
      -- subscription-manager is not there or does not unregister the system does not stop the
      -- rollback.
      pub restore_system-returns :
          (w : W)
          → restore_system (rhsm_of sys opts register repo_ids) (record { enabled = true }) w
            ≡ (ok tt, record { enabled = false }, (unregister_system sys w).1)
      unfolding restore_system rhsm_of
      restore_system-returns w =
          restored (record { enabled = true }) w (unregister_system sys w)
            (unregister_system-EndsBy w)
