-- ===== src/Backup/Packages.antt =====
-- The packages that a rollback installs again or removes (convert2rhel/backup/packages.py). What the
-- methods call of the rest of the program and of the system is a parameter.
use convert2rhel.Prelude.{
  ℕ, String, Bool, true, false, not, ◌||◌, Option, none, some, List, [], ◌∷◌, ◌++◌, has_items, ◌==◌,
  nat_eq, string_eq, critical_error, Result, ok, raise, if◌then◌else◌,
}
use convert2rhel.Backup.Methods.{Method, ◌>>=◌, ◌>>◌, throw, self, set, call, no_change, as_texts}

pub record RestorablePackage : Type 0 where
  pub enabled : Bool
  pub pkgs : List String
  pub reposdir : Option String
  pub disable_repos : List String
  pub set_releasever : Bool
  pub custom_releasever : Option String
  -- What `download_pkg` returned for each package: None where it could not be downloaded.
  pub backedup_pkgs_paths : List (Option String)

pub record PackageSet : Type 0 where
  pub enabled : Bool
  pub pkgs_to_install : List String
  pub installed_pkgs : List String
  pub enable_repos : List String
  pub disable_repos : List String
  pub setopts : List String
  pub set_releasever : Bool
  pub custom_releasever : Option String

pub record PackageCalls (W : Type 0) : Type 0 where
  -- `os.path.isdir(BACKUP_DIR)`
  pub backup_dir_exists : W → Bool
  -- That a directory exists and has entries
  pub has_entries : String → W → Bool
  -- `download_pkg` of a package into `BACKUP_DIR`
  pub download_pkg : RestorablePackage → String → W → Result (Option String) × W
  pub remove_orphan_folders : W → Result (Unit {0}) × W
  -- `run_subprocess` of a command, its return code
  pub run_subprocess : List String → W → Result ℕ × W
  -- `call_yum_cmd("install", ...)`, its return code
  pub yum_install : PackageSet → W → Result ℕ × W
  -- `remove_pkgs(pkgs, critical=False)`
  pub remove_pkgs : List String → W → Result (Unit {0}) × W

module _ {W : Type 0} (calls : PackageCalls W) where
  -- A directory of repositories that is empty or missing is not used.
  unfoldable pub check_reposdir : Method RestorablePackage W (Unit {0})
  check_reposdir o w = elim o.reposdir [
    | none ↦ (ok tt, o, w)
    | some dir ↦
        if dir == "" || calls.has_entries dir w
        then (ok tt, o, w)
        else (ok tt, record o { reposdir = none }, w)
  ]

  -- The loop of `RestorablePackage.enable`
  unfoldable pub download_each : List String → Method RestorablePackage W (Unit {0})
  download_each [] = no_change
  download_each (pkg ∷ pkgs) = do
    path ← (λ o w. let (r, w') = calls.download_pkg o pkg w in (r, o, w'))
    set (λ o. record o { backedup_pkgs_paths = o.backedup_pkgs_paths ++ (path ∷ []) })
    download_each pkgs

  unfoldable pub back_up : Method RestorablePackage W (Unit {0})
  back_up = do
    check_reposdir
    pkgs ← self (λ o. o.pkgs)
    download_each pkgs
    set (λ o. record o { enabled = true })

  -- `RestorablePackage.enable`
  unfoldable pub enable_package : Method RestorablePackage W (Unit {0})
  enable_package = do
    enabled ← self (λ o. o.enabled)
    there ← (λ o w. (ok (calls.backup_dir_exists w), o, w))
    if enabled || not there then no_change else back_up

  -- `_install_local_rpms(replace=True, critical=True)`, with paths
  unfoldable pub install_local_rpms : List (Option String) → Method RestorablePackage W (Unit {0})
  install_local_rpms paths o w = elim (as_texts paths) [
    | raise e ↦ (raise e, o, w)
    | ok files ↦
        let (r, w') = calls.run_subprocess ("rpm" ∷ "-i" ∷ "--replacepkgs" ∷ files) w in
        elim r [
          | raise e ↦ (raise e, o, w')
          | ok code ↦ if code == 0 then (ok tt, o, w') else (raise critical_error, o, w')
        ]
  ]

  unfoldable pub reinstall : Method RestorablePackage W (Unit {0})
  reinstall = do
    call calls.remove_orphan_folders
    paths ← self (λ o. o.backedup_pkgs_paths)
    if has_items paths then install_local_rpms paths else throw critical_error
    set (λ o. record o { enabled = false })

  -- `RestorablePackage.restore`
  unfoldable pub restore_package : Method RestorablePackage W (Unit {0})
  restore_package = do enabled ← self (λ o. o.enabled); if enabled then reinstall else no_change

  -- `RestorablePackageSet._enable`
  unfoldable pub install_set : Method PackageSet W (Unit {0})
  install_set o w =
      if not (has_items o.pkgs_to_install)
      then (ok tt, o, w)
      else (let (r, w') = calls.yum_install o w in
          elim r [
            | raise e ↦ (raise e, o, w')
            | ok code ↦
                if code == 0
                then (ok tt, record o { installed_pkgs = o.pkgs_to_install; enabled = true }, w')
                else (raise critical_error, o, w')
          ])

  -- `RestorablePackageSet.enable`
  unfoldable pub enable_set : Method PackageSet W (Unit {0})
  enable_set = do
    enabled ← self (λ o. o.enabled)
    if enabled then no_change else (install_set >> set (λ o. record o { enabled = true }))

  -- `RestorablePackageSet.restore`
  unfoldable pub restore_set : Method PackageSet W (Unit {0})
  restore_set = do
    enabled ← self (λ o. o.enabled)
    pkgs ← self (λ o. o.installed_pkgs)
    if enabled
        then (call (calls.remove_pkgs pkgs) >> set (λ o. record o { enabled = false }))
        else no_change
