-- ===== src/Transactions/Yum.antt =====
-- The yum transaction handler (convert2rhel/pkgmanager/handlers/yum/__init__.py). YumBase and the
-- classes of its errors are parameters.
use convert2rhel.Prelude.{
  ℕ, String, Bool, Option, none, some, List, [], ◌∷◌, ◌==◌, nat_eq, Exn, Result, critical_error,
  if◌then◌else◌,
}
use convert2rhel.Prelude.Text.{same_char}
use convert2rhel.Prelude.Calls.{Call, ◌>>=◌, ◌>>◌, pure, throw, catch, do_nothing}
use convert2rhel.Transactions.Session.{Session, outside, on_base, as_child, change_base, set_base}
use convert2rhel.Transactions.Rounds.{Messages, items_of, Rounds, messages_in, run_transaction}

-- A method of YumBase with a value `A`
abbrev pub BaseMethod : Type 0 → Type 0 → Type 0 → Type 0
BaseMethod B W A = B → W → Result A × B × W

pub record YumApi (B W : Type 0) : Type 0 where
  pub setup_locale : Call W (Unit {0})
  pub new_base : Call W B
  -- `conf.exclude = []` and `conf.yumvar["releasever"] = ...`
  pub configure : B → B
  -- `conf.tsflags.append("test")`
  pub append_test : B → B
  pub disable_all_repos : BaseMethod B W (Unit {0})
  pub set_progress_bar : BaseMethod B W (Unit {0})
  pub enable_repo : String → BaseMethod B W (Unit {0})
  pub update : String → BaseMethod B W Bool
  pub reinstall : String → BaseMethod B W (Unit {0})
  pub downgrade : String → BaseMethod B W (Unit {0})
  pub remove : String → BaseMethod B W (Unit {0})
  pub install : String → BaseMethod B W (Unit {0})
  -- `resolveDeps`: its code and the messages
  pub resolve_deps : BaseMethod B W (ℕ × Messages)
  pub process_transaction : BaseMethod B W (Unit {0})
  pub close : BaseMethod B W (Unit {0})
  -- `isinstance` of the classes that the handler catches
  pub is_repo_error : Exn → Bool
  pub is_reinstall_error : Exn → Bool
  pub is_downgrade_error : Exn → Bool
  pub is_no_more_mirrors : Exn → Bool
  pub is_yum_base_error : Exn → Bool
  -- `re.findall(EXTRACT_PKG_FROM_YUM_DEPSOLVE, message)`
  pub packages_in : String → List String

pub record Replacing (W : Type 0) : Type 0 where
  -- `get_system_packages_for_replacement`
  pub original_os_pkgs : Call W (List String)
  pub enabled_rhel_repos : List String
  pub swap_pkgs : List (String × String)
  pub is_rpm_installed : String → Call W Bool
  -- `backup_control.push(RestorablePackage(pkgs, ...))`
  pub push_package : List String → Call W (Unit {0})
  -- `remove_pkgs(pkgs, critical=True)`
  pub remove_pkgs : List String → Call W (Unit {0})
  -- The world that a child process leaves which is started in a world and terminated by a SIGINT that
  -- reaches the parent, where one does
  pub interrupt : W → Option W
  -- `list(set(names))`
  pub list_of_set : List String → List String

-- `text.replace(" ", "")`
unfoldable pub without_spaces : String → String
without_spaces String.[] = ""
without_spaces (String.◌∷◌ c s) =
    let rest = without_spaces s in if same_char c " " then rest else String.◌∷◌ c rest

-- Where an exception is of a class, another one is raised in its place.
abbrev pub in_place_of : {S A : Type 0} → (Exn → Bool) → Exn → Exn → Call S A
in_place_of is_caught instead e = if is_caught e then throw instead else throw e

module _ {B W : Type 0} (yum : YumApi B W) (sys : Replacing W) where
  abbrev Do : Type 0
  Do = Call (Session B W) (Unit {0})

  -- The first package that each message names
  unfoldable pub problematic_packages : List String → List String
  problematic_packages [] = []
  problematic_packages (message ∷ messages) =
      let rest = problematic_packages messages in
      elim (yum.packages_in message) [ [] ↦ rest | p ∷ ps ↦ without_spaces p ∷ rest ]

  -- `_resolve_yum_problematic_dependencies`
  unfoldable pub remove_problematic : List String → Call W (Unit {0})
  remove_problematic [] = do_nothing
  remove_problematic (p ∷ ps) =
      sys.push_package (sys.list_of_set (p ∷ ps)) >> sys.remove_pkgs (sys.list_of_set (p ∷ ps))

  unfoldable pub resolve_problematic_dependencies : Messages → Do
  resolve_problematic_dependencies output =
      outside (remove_problematic (problematic_packages (items_of output)))

  unfoldable pub close_yum_base : Do
  close_yum_base = on_base yum.close >> set_base none

  unfoldable pub set_up_base : Do
  set_up_base = do
    outside yum.setup_locale
    base ← outside yum.new_base
    set_base (some (yum.configure base))

  unfoldable pub enable_each : List String → Do
  enable_each [] = do_nothing
  enable_each (repo ∷ repos) = on_base (yum.enable_repo repo) >> enable_each repos

  unfoldable pub enable_repos : Do
  enable_repos = do
    on_base yum.disable_all_repos
    on_base yum.set_progress_bar
    catch (enable_each sys.enabled_rhel_repos) (in_place_of yum.is_repo_error critical_error)

  abbrev pub swap : String × String → Bool → Do
  swap (old, new) installed =
      if installed then (on_base (yum.remove old) >> on_base (yum.install new)) else do_nothing

  -- `_swap_base_os_specific_packages`
  unfoldable pub swap_each : List (String × String) → Do
  swap_each [] = do_nothing
  swap_each (pair ∷ pairs) = do
    installed ← outside (sys.is_rpm_installed (pair.0))
    swap pair installed
    swap_each pairs

  abbrev pub pass_downgrade_error : Exn → Do
  pass_downgrade_error e = if yum.is_downgrade_error e then do_nothing else throw e

  abbrev pub or_downgrade : String → Exn → Do
  or_downgrade pkg e =
      if yum.is_reinstall_error e
      then catch (on_base (yum.downgrade pkg)) pass_downgrade_error
      else throw e

  abbrev pub or_reinstall : String → Bool → Do
  or_reinstall pkg can_update =
      if can_update then do_nothing else catch (on_base (yum.reinstall pkg)) (or_downgrade pkg)

  -- A package is updated, reinstalled or downgraded, whichever is possible first.
  unfoldable pub replace_pkg : String → Do
  replace_pkg pkg = on_base (yum.update pkg) >>= or_reinstall pkg

  unfoldable pub replace_each : List String → Do
  replace_each [] = do_nothing
  replace_each (pkg ∷ pkgs) = replace_pkg pkg >> replace_each pkgs

  unfoldable pub perform_operations : Do
  perform_operations = do
    original_os_pkgs ← outside sys.original_os_pkgs
    enable_repos
    catch (replace_each original_os_pkgs >> swap_each sys.swap_pkgs)
        (in_place_of yum.is_no_more_mirrors critical_error)

  -- The messages of `resolveDeps`, where its code is 1
  unfoldable pub resolve_dependencies : Call (Session B W) (Option Messages)
  resolve_dependencies = do
    answer ← on_base yum.resolve_deps
    pure (if answer.0 == 1 then some (answer.1) else none)

  unfoldable pub process_transaction : Bool → Do
  process_transaction validate = do
    if validate then change_base yum.append_test else do_nothing
    catch (on_base yum.process_transaction) (in_place_of yum.is_yum_base_error critical_error)

  abbrev pub process_unless : Bool → Option Messages → Do
  process_unless validate none = process_transaction validate
  process_unless validate (some messages) = do_nothing

  -- `_run_transaction_subprocess`, in the child
  unfoldable pub in_child : Bool → Call (Session B W) (Option Messages)
  in_child validate = do
    perform_operations
    messages ← resolve_dependencies
    process_unless validate (messages_in messages)
    pure messages

  abbrev pub yum_rounds : Bool → Rounds (Session B W)
  yum_rounds validate = record {
    set_up = set_up_base;
    close = close_yum_base;
    run = as_child sys.interrupt (in_child validate);
    resolve_problems = resolve_problematic_dependencies;
  }

  -- `YumTransactionHandler.run_transaction`
  unfoldable pub run_yum_transaction : Bool → Do
  run_yum_transaction validate = run_transaction (yum_rounds validate) validate
