-- ===== src/Backup/Subscriptions.antt =====
-- The changes of the subscription that a rollback undoes (convert2rhel/backup/subscription.py). The
-- functions of convert2rhel/subscription.py are parameters.
use convert2rhel.Prelude.{
  String, Bool, true, false, not, List, [], ◌∷◌, has_items, Exn, os_error, Result, if◌then◌else◌,
}
use convert2rhel.Backup.Methods.{
  Method, ◌>>=◌, ◌>>◌, pure, throw, self, set, call, no_change, catch,
}

pub record Rhsm (W : Type 0) : Type 0 where
  pub register_system : W → Result (Unit {0}) × W
  pub attach_subscription : W → Result (Unit {0}) × W
  pub unregister_system : W → Result (Unit {0}) × W
  pub auto_attach_subscription : W → Result Bool × W
  pub remove_subscription : W → Result (Unit {0}) × W
  pub disable_repos : W → Result (Unit {0}) × W
  pub submgr_enable_repos : List String → W → Result (Unit {0}) × W
  -- The output of `subscription-manager repos --list-enabled`, and the repositories in it
  pub list_enabled : W → Result String × W
  pub repo_ids : String → List String
  -- `UnregisterError`
  pub is_unregister_error : Exn → Bool

pub record SystemSubscription : Type 0 where
  pub enabled : Bool

pub record AutoAttachment : Type 0 where
  pub enabled : Bool
  pub is_attached : Bool

pub record DisableRepositories : Type 0 where
  pub enabled : Bool
  pub repos_to_enable : List String

module _ {W : Type 0} (rhsm : Rhsm W) where
  -- `RestorableSystemSubscription.enable`
  unfoldable pub enable_system : Method SystemSubscription W (Unit {0})
  enable_system = do
    enabled ← self (λ o. o.enabled)
    if enabled then no_change else (do
      call rhsm.register_system
      call rhsm.attach_subscription
      set (λ o. record o { enabled = true }))

  -- The two `except` clauses of its `restore`
  unfoldable pub handle_unregister : Exn → Method SystemSubscription W (Unit {0})
  handle_unregister os_error = no_change
  handle_unregister e = if rhsm.is_unregister_error e then no_change else throw e

  unfoldable pub restore_system : Method SystemSubscription W (Unit {0})
  restore_system = do
    enabled ← self (λ o. o.enabled)
    if not enabled then no_change else (do
      catch (call rhsm.unregister_system) handle_unregister
      set (λ o. record o { enabled = false }))

  -- `RestorableAutoAttachmentSubscription.enable`
  unfoldable pub enable_attachment : Method AutoAttachment W (Unit {0})
  enable_attachment = do
    enabled ← self (λ o. o.enabled)
    if enabled then no_change else (do
      attached ← call rhsm.auto_attach_subscription
      set (λ o. record o { is_attached = attached })
      set (λ o. record o { enabled = true }))

  unfoldable pub restore_attachment : Method AutoAttachment W (Unit {0})
  restore_attachment = do
    attached ← self (λ o. o.is_attached)
    if attached
        then (call rhsm.remove_subscription >> set (λ o. record o { enabled = false }))
        else no_change

  -- `_get_enabled_repositories`
  unfoldable pub get_enabled_repositories : Method DisableRepositories W (List String)
  get_enabled_repositories = do output ← call rhsm.list_enabled; pure (rhsm.repo_ids output)

  -- `RestorableDisableRepositories.enable`, which does not ask whether it is enabled.
  unfoldable pub enable_repositories : Method DisableRepositories W (Unit {0})
  enable_repositories = do
    repositories ← get_enabled_repositories
    set (λ o. if has_items repositories then record o { repos_to_enable = repositories } else o)
    call rhsm.disable_repos
    set (λ o. record o { enabled = true })

  -- The repositories are set only where there were some.
  unfoldable pub restore_repos : List String → Method DisableRepositories W (Unit {0})
  restore_repos [] = no_change
  restore_repos (repo ∷ repos) = do
    call rhsm.disable_repos
    call (rhsm.submgr_enable_repos (repo ∷ repos))

  unfoldable pub restore_repositories : Method DisableRepositories W (Unit {0})
  restore_repositories = do
    enabled ← self (λ o. o.enabled)
    if not enabled then no_change else (do
      repos ← self (λ o. o.repos_to_enable)
      restore_repos repos
      set (λ o. record o { enabled = false }))
