-- ===== src/Packages/Kernels.antt =====
-- The kernel of RHEL and the locks of versions (convert2rhel/pkghandler.py). What the functions call
-- of other modules and of the system is in the environment, and so are the lists of kernels, which
-- are read from the output of yum.
use convert2rhel.Prelude.{
  ℕ, String, ◌<>◌, Bool, not, ◌&&◌, Option, none, some, List, [], ◌∷◌, filter, length, ltb,
  contains, has_items, ◌==◌, string_eq, nat_eq, Result, ok, raise, index_error, critical_error,
  if◌then◌else◌,
}
use convert2rhel.Prelude.Calls.{Call, ◌>>=◌, ◌>>◌, computed}
use convert2rhel.Backup.{Restorable, Control, push}

pub record Kernels (W : Type 0) : Type 0 where
  -- The installed and the available versions, `get_kernel_availability`
  pub get_kernel_availability : Call W (List String × List String)
  pub remove_pkgs : List String → Call W (Unit {0})
  -- `call_yum_cmd` of a command and its arguments: the return code is not looked at.
  pub call_yum_cmd : String → List String → Call W (Unit {0})
  pub ask_to_continue : Call W (Unit {0})
  pub get_enabled_rhel_repos : List String
  -- `download_pkg` into `TMP_DIR`, with the repositories to enable
  pub download_pkg : String → List String → Call W (Option String)
  -- `rpm -i --force --nodeps --replacepkgs`, its return code
  pub rpm_replace : String → Call W ℕ
  -- `os.path.isfile(path)` and `os.path.getsize(path) > 0`
  pub is_file : String → W → Bool
  pub is_not_empty : String → W → Bool

abbrev pub last_or_raise : List String → Result String
last_or_raise [] = raise (index_error "list index out of range")
last_or_raise (x ∷ []) = ok x
last_or_raise (x ∷ y ∷ rest) = last_or_raise (y ∷ rest)

abbrev pub first_or_raise : List String → Result String
first_or_raise [] = raise (index_error "list index out of range")
first_or_raise (x ∷ rest) = ok x

abbrev pub versionlock_file_path : String
versionlock_file_path = "/etc/yum/pluginconf.d/versionlock.list"

-- The kernels that are available and not installed
unfoldable pub available_to_install : List String → List String → List String
available_to_install installed available =
    filter (λ kernel. not (contains installed kernel)) available

module _ {W : Type 0} (env : Kernels W) where
  abbrev Do : Type 0
  Do = Call W (Unit {0})

  abbrev pub install : String → Do
  install version = env.call_yum_cmd "install" (("kernel-" <> version) ∷ [])

  -- The path, or that the program ends.
  abbrev downloaded : Option String → Result (Unit {0})
  downloaded none = raise critical_error
  downloaded (some path) = if path == "" then raise critical_error else ok tt

  -- `replace_non_rhel_installed_kernel`
  unfoldable pub replace_non_rhel_installed_kernel : String → Do
  replace_non_rhel_installed_kernel version = do
    env.ask_to_continue
    path ← env.download_pkg ("kernel-" <> version) env.get_enabled_rhel_repos
    computed (downloaded path)
    code ← env.rpm_replace ("kernel-" <> version)
    computed (if code == 0 then ok tt else raise critical_error)

  -- More than one kernel is installed: one of them makes room.
  unfoldable pub replace_older : List String → Do
  replace_older all_available = do
    older ← computed (last_or_raise all_available)
    env.remove_pkgs (("kernel-" <> older) ∷ [])
    install older

  -- Where every kernel that is available is installed
  unfoldable pub handle_all_installed : List String → List String → Do
  handle_all_installed installed all_available =
      if ltb 1 (length installed)
      then replace_older all_available
      else (computed (first_or_raise installed) >>= replace_non_rhel_installed_kernel)

  unfoldable pub handle_kernels : List String → List String → Do
  handle_kernels installed all_available =
      if has_items (available_to_install installed all_available)
      then (computed (last_or_raise (available_to_install installed all_available)) >>= install)
      else handle_all_installed installed all_available

  -- `handle_no_newer_rhel_kernel_available`
  unfoldable pub handle_no_newer_rhel_kernel_available : Do
  handle_no_newer_rhel_kernel_available =
      env.get_kernel_availability >>= λ (installed, all_available).
      handle_kernels installed all_available

  -- `update_rhel_kernel`
  unfoldable pub update_rhel_kernel : Do
  update_rhel_kernel = env.call_yum_cmd "update" ("kernel" ∷ [])

  -- `clear_versionlock`, with the change that keeps the file; making it may raise.
  unfoldable pub clear_versionlock :
      {R : Type 0}
      → Restorable R W
      → (String → W → Result R)
      → Control R
      → W
      → Result (Unit {0}) × Control R × W
  clear_versionlock restorable new_file c w =
      if env.is_file versionlock_file_path w && env.is_not_empty versionlock_file_path w
      then (let (r, w1) = env.ask_to_continue w in
          elim r [
            | raise e ↦ (raise e, c, w1)
            | ok _ ↦ elim (new_file versionlock_file_path w1) [
              | raise e ↦ (raise e, c, w1)
              | ok change ↦
                  let (r', c', w2) = push restorable change c w1 in
                  elim r' [
                    | raise e ↦ (raise e, c', w2)
                    | ok _ ↦
                        let (r'', w3) = env.call_yum_cmd "versionlock" ("clear" ∷ []) w2 in
                        (r'', c', w3)
                  ]
            ]
          ])
      else (ok tt, c, w)
