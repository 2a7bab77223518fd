-- ===== src/Subscription/Commands.antt =====
-- The functions of convert2rhel/subscription.py that run subscription-manager.
use convert2rhel.Prelude.{
  ℕ, String, ◌<>◌, Bool, true, false, Option, none, some, List, [], ◌∷◌, map, given, or_empty,
  has_items, ◌==◌, nat_eq, Exn, Result, ok, raise, critical_error, os_error, value_error,
  system_exit, unregister_error, removal_error, refresh_error, stop_rhsm_error, attachment_error,
  if◌then◌else◌,
}
use convert2rhel.Prelude.Text.{has_text}
use convert2rhel.Prelude.Calls.{Call, ◌>>=◌, ◌>>◌, computed, pure, throw, catch, do_nothing}

-- What the functions read of `tool_opts`
pub record Options : Type 0 where
  pub org : Option String
  pub activation_key : Option String
  pub username : Option String
  pub password : Option String
  pub rhsm_hostname : Option String
  pub rhsm_port : Option String
  pub rhsm_prefix : Option String
  pub pool : Option String
  pub auto_attach : Bool
  pub no_rhsm : Bool
  pub disablerepo : List String
  pub enablerepo : List String

pub record SubscriptionManager (W : Type 0) : Type 0 where
  -- `run_subprocess`: the output and the return code
  pub run_subprocess : List String → Call W (String × ℕ)
  -- `output.lower()`
  pub lower : String → String
  -- The names of the packages that `get_installed_pkg_information` finds
  pub installed_pkgs : String → Call W (List String)

-- A return code other than 0 raises.
abbrev pub succeed_or : Exn → String × ℕ → Result (Unit {0})
succeed_or e (output, code) = if code == 0 then ok tt else raise e

module _ {W : Type 0} (sys : SubscriptionManager W) where
  abbrev Do : Type 0
  Do = Call W (Unit {0})

  -- A command that has to end with 0
  unfoldable pub must_run : List String → Exn → Do
  must_run cmd e = do answer ← sys.run_subprocess cmd; computed (succeed_or e answer)

  unfoldable pub remove_subscription : Do
  remove_subscription = must_run ("subscription-manager" ∷ "remove" ∷ "--all" ∷ []) removal_error

  unfoldable pub auto_attach_subscription : Call W Bool
  auto_attach_subscription = do
    must_run ("subscription-manager" ∷ "attach" ∷ "--auto" ∷ []) attachment_error
    pure true

  -- A system without subscription-manager is left alone.
  unfoldable pub unregister_if : String × ℕ → Do
  unregister_if (output, code) =
      if code == 0
      then must_run ("subscription-manager" ∷ "unregister" ∷ []) unregister_error
      else do_nothing

  unfoldable pub unregister_system : Do
  unregister_system = do
    found ← sys.run_subprocess ("rpm" ∷ "--quiet" ∷ "-q" ∷ "subscription-manager" ∷ [])
    unregister_if found

  unfoldable pub refresh_subscription_info : Do
  refresh_subscription_info = must_run ("subscription-manager" ∷ "refresh" ∷ []) refresh_error

  -- `_stop_rhsm`
  unfoldable pub stop_rhsm : Do
  stop_rhsm = must_run ("/bin/systemctl" ∷ "stop" ∷ "rhsm" ∷ []) stop_rhsm_error

  unfoldable pub is_registered : Call W Bool
  is_registered = do
    answer ← sys.run_subprocess ("subscription-manager" ∷ "identity" ∷ [])
    pure (answer.1 == 0)

  unfoldable pub is_sca_enabled : Call W Bool
  is_sca_enabled = do
    answer ← sys.run_subprocess ("subscription-manager" ∷ "status" ∷ [])
    pure (has_text "content access mode is set to simple content access." (sys.lower answer.0))

  unfoldable pub is_subscription_attached : Call W Bool
  is_subscription_attached = do
    answer ← sys.run_subprocess ("subscription-manager" ∷ "list" ∷ "--consumed" ∷ [])
    pure (
        if has_text "no consumed subscription pools were found." (sys.lower answer.0)
        then false
        else true)

  -- The command that attaches: `--auto` unless a pool is given.
  unfoldable pub attach_command : Options → List String
  attach_command opts =
      "subscription-manager"
      ∷ "attach"
      ∷ (if opts.auto_attach
          then "--auto" ∷ []
          else if given opts.pool
          then "--pool" ∷ or_empty opts.pool ∷ []
          else "--auto" ∷ [])

  -- Behind the question for the content access
  unfoldable pub attach_unless : Options → Bool → Call W Bool
  attach_unless opts sca =
      if sca
      then pure true
      else if given opts.activation_key
      then pure true
      else (must_run (attach_command opts) critical_error >> pure true)

  unfoldable pub attach_subscription : Options → Call W Bool
  attach_subscription opts = is_sca_enabled >>= attach_unless opts

  unfoldable pub verify_rhsm_installed : Do
  verify_rhsm_installed = do
    pkgs ← sys.installed_pkgs "subscription-manager"
    computed (if has_items pkgs then ok tt else raise critical_error)

  -- Every repository, or those of --disablerepo
  unfoldable pub disable_repos : Options → Do
  disable_repos opts =
      must_run
        ("subscription-manager"
          ∷ "repos"
          ∷ map (λ repo. "--disable=" <> repo)
              (if has_items opts.disablerepo then opts.disablerepo else "*" ∷ []))
        critical_error

  unfoldable pub submgr_enable_repos : List String → Do
  submgr_enable_repos repos =
      must_run ("subscription-manager" ∷ "repos" ∷ map (λ repo. "--enable=" <> repo) repos)
        critical_error

  -- `enable_repos`, with what it sets `system_info.submgr_enabled_repos` to.
  unfoldable pub enable_repos : Options → List String → Call W (List String)
  enable_repos opts rhel_repoids =
      let repos = if has_items opts.enablerepo then opts.enablerepo else rhel_repoids in
      submgr_enable_repos repos >> pure repos

  abbrev pub facts_failure : String × ℕ → Option (ℕ × String)
  facts_failure (output, code) = if code == 0 then none else some (code, output)

  unfoldable pub update_facts_of_rhsm : List String → Call W (Option (ℕ × String))
  update_facts_of_rhsm [] = pure none
  update_facts_of_rhsm (pkg ∷ pkgs) = do
    answer ← sys.run_subprocess ("subscription-manager" ∷ "facts" ∷ "--update" ∷ [])
    pure (facts_failure answer)

  -- `update_rhsm_custom_facts`: the return code and the output, where it failed.
  unfoldable pub update_rhsm_custom_facts : Options → Call W (Option (ℕ × String))
  update_rhsm_custom_facts opts =
      if opts.no_rhsm
      then pure none
      else (sys.installed_pkgs "subscription-manager" >>= update_facts_of_rhsm)

  -- The facts that cannot be read are taken to be none.
  abbrev pub without_facts : {F : Type 0} → F → Exn → Call W F
  without_facts empty os_error = pure empty
  without_facts empty value_error = pure empty
  without_facts empty e = throw e

  -- `get_rhsm_facts`, from reading the file of the facts
  unfoldable pub get_rhsm_facts : {F : Type 0} → Options → F → Call W F → Call W F
  get_rhsm_facts opts empty load_json =
      if opts.no_rhsm then pure empty else catch load_json (without_facts empty)

  -- `get_pool_id`, behind the search with `re`
  unfoldable pub get_pool_id : (String → Option String) → String → Result String
  get_pool_id search attrs = elim (search attrs) [ none ↦ raise system_exit | some pool ↦ ok pool ]
