-- ===== src/Transactions/Dnf.antt =====
-- The dnf transaction handler (convert2rhel/pkgmanager/handlers/dnf/__init__.py). dnf.Base and the
-- classes of its errors are parameters.
use convert2rhel.Prelude.{
  String, Bool, Option, none, some, List, [], ◌∷◌, contains, string_eq, Exn, Result, ok, raise,
  value_error, critical_error, if◌then◌else◌,
}
use convert2rhel.Prelude.Text.{split_last}
use convert2rhel.Prelude.Calls.{Call, ◌>>=◌, ◌>>◌, computed, throw, catch, do_nothing}
use convert2rhel.Transactions.Session.{Session, outside, on_base, change_base, set_base}
use convert2rhel.Transactions.Yum.{BaseMethod, Replacing, in_place_of}

pub record DnfApi (B W : Type 0) : Type 0 where
  pub new_base : Call W B
  -- `conf`, `_ds_callback` and `conf.exclude`
  pub configure : B → B
  pub append_test : B → B
  pub read_all_repos : BaseMethod B W (Unit {0})
  -- `repos.all()`, their ids
  pub all_repos : BaseMethod B W (List String)
  pub enable_repo : String → BaseMethod B W (Unit {0})
  pub disable_repo : String → BaseMethod B W (Unit {0})
  pub fill_sack : BaseMethod B W (Unit {0})
  -- `sack.query().upgrades().latest()`, and whether it has a package of a name and an arch
  pub find_upgrades : BaseMethod B W (Unit {0})
  pub has_upgrade : String → String → BaseMethod B W Bool
  pub upgrade : String → BaseMethod B W (Unit {0})
  pub reinstall : String → BaseMethod B W (Unit {0})
  pub downgrade_to : String → BaseMethod B W (Unit {0})
  pub install : String → BaseMethod B W (Unit {0})
  pub remove : String → BaseMethod B W (Unit {0})
  pub resolve : BaseMethod B W (Unit {0})
  pub download_packages : BaseMethod B W (Unit {0})
  pub do_transaction : BaseMethod B W (Unit {0})
  pub close : BaseMethod B W (Unit {0})
  -- `isinstance` of the classes that the handler catches
  pub is_repo_error : Exn → Bool
  pub is_not_available : Exn → Bool
  pub is_not_installed : Exn → Bool
  pub is_depsolve_error : Exn → Bool
  pub is_download_error : Exn → Bool
  pub is_dnf_error : Exn → Bool

-- `name, arch = tuple(pkg.rsplit(".", 1))`
abbrev pub name_and_arch : Option (String × String) → Result (String × String)
name_and_arch none = raise value_error
name_and_arch (some parts) = ok parts

module _ {B W : Type 0} (dnf : DnfApi B W) (sys : Replacing W) where
  abbrev Do : Type 0
  Do = Call (Session B W) (Unit {0})

  -- `_set_up_base`
  unfoldable pub set_up_base : Do
  set_up_base = do base ← outside dnf.new_base; set_base (some (dnf.configure base))

  unfoldable pub choose_each : List String → Do
  choose_each [] = do_nothing
  choose_each (repo ∷ repos) = do
    on_base (
        if contains sys.enabled_rhel_repos repo
        then dnf.enable_repo repo
        else dnf.disable_repo repo)
    choose_each repos

  -- `_enable_repos`
  unfoldable pub enable_repos : Do
  enable_repos = do
    on_base dnf.read_all_repos
    repos ← on_base dnf.all_repos
    catch (choose_each repos >> on_base dnf.fill_sack)
        (in_place_of dnf.is_repo_error critical_error)

  abbrev pub swap : String × String → Bool → Do
  swap (old, new) installed =
      if installed then (on_base (dnf.install new) >> on_base (dnf.remove old)) else do_nothing

  -- `_swap_base_os_specific_packages`
  unfoldable pub swap_each : List (String × String) → Do
  swap_each [] = do_nothing
  swap_each (pair ∷ pairs) = do
    installed ← outside (sys.is_rpm_installed (pair.0))
    swap pair installed
    swap_each pairs

  abbrev pub pass_not_installed : Exn → Do
  pass_not_installed e = if dnf.is_not_installed e then do_nothing else throw e

  abbrev pub or_downgrade : String → Exn → Do
  or_downgrade pkg e =
      if dnf.is_not_available e
      then catch (on_base (dnf.downgrade_to pkg)) pass_not_installed
      else throw e

  abbrev pub upgrade_or_reinstall : String → Bool → Do
  upgrade_or_reinstall pkg can_upgrade =
      if can_upgrade
      then on_base (dnf.upgrade pkg)
      else catch (on_base (dnf.reinstall pkg)) (or_downgrade pkg)

  unfoldable pub replace_pkg : String → Do
  replace_pkg pkg = do
    parts ← computed (name_and_arch (split_last "." pkg))
    can_upgrade ← on_base (dnf.has_upgrade (parts.0) (parts.1))
    upgrade_or_reinstall pkg can_upgrade

  unfoldable pub replace_each : List String → Do
  replace_each [] = do_nothing
  replace_each (pkg ∷ pkgs) = replace_pkg pkg >> replace_each pkgs

  -- `_perform_operations`
  unfoldable pub perform_operations : Do
  perform_operations = do
    original_os_pkgs ← outside sys.original_os_pkgs
    on_base dnf.find_upgrades
    replace_each original_os_pkgs
    swap_each sys.swap_pkgs

  -- `_resolve_dependencies`
  unfoldable pub resolve_dependencies : Do
  resolve_dependencies = do
    catch (on_base dnf.resolve) (in_place_of dnf.is_depsolve_error critical_error)
    catch (on_base dnf.download_packages) (in_place_of dnf.is_download_error critical_error)

  -- `_process_transaction`
  unfoldable pub process_transaction : Bool → Do
  process_transaction validate = do
    if validate then change_base dnf.append_test else do_nothing
    catch (on_base dnf.do_transaction) (in_place_of dnf.is_dnf_error critical_error)

  -- `DnfTransactionHandler.run_transaction`
  unfoldable pub run_dnf_transaction : Bool → Do
  run_dnf_transaction validate = do
    set_up_base
    enable_repos
    perform_operations
    resolve_dependencies
    process_transaction validate
    on_base dnf.close
    set_base none
