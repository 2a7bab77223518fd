-- ===== src/Backup/Samples.antt =====
-- Changes of packages and keys on a world that counts the calls (convert2rhel/backup/packages.py,
-- convert2rhel/backup/certs.py).
use convert2rhel.Prelude.{
  ℕ, ◌+◌, String, Bool, true, false, Option, none, some, List, [], ◌∷◌, ◌==◌, nat_eq, string_eq,
  type_error, ok, raise, if◌then◌else◌, ◌≡◌, refl,
}
use convert2rhel.Backup.Packages.{
  RestorablePackage, PackageCalls, check_reposdir, download_each, back_up, enable_package,
  install_local_rpms, reinstall, restore_package,
}
use convert2rhel.Backup.Certs.{CertCalls, owned, installed, import_new, enable_key, restore_key}
use convert2rhel.Backup.Subscriptions.{Rhsm, enable_attachment, restore_attachment}
use convert2rhel.Backup.Restored.{new_key, restore_package-missing_path, restore_key-enable_key}

program : Unit {0}
unfolding check_reposdir download_each back_up enable_package install_local_rpms reinstall
    restore_package installed import_new enable_key restore_key enable_attachment restore_attachment
    nat_eq string_eq
program = tt

-- Only the first of the packages can be downloaded.
abbrev calls : PackageCalls ℕ
calls = record {
  backup_dir_exists = λ w. true;
  has_entries = λ dir w. false;
  download_pkg = λ o pkg w. (ok (if pkg == "a" then some "/a.rpm" else none), w + 1);
  remove_orphan_folders = λ w. (ok tt, w + 10);
  run_subprocess = λ cmd w. (ok 0, w + 100);
  yum_install = λ o w. (ok 0, w);
  remove_pkgs = λ pkgs w. (ok tt, w);
}

abbrev new_package : List String → RestorablePackage
new_package pkgs = record {
  enabled = false;
  pkgs = pkgs;
  reposdir = some "/repos";
  disable_repos = [];
  set_releasever = false;
  custom_releasever = none;
  backedup_pkgs_paths = [];
}

abbrev backed_up : List String → List (Option String) → RestorablePackage
backed_up pkgs paths = record (new_package pkgs) {
  enabled = true;
  reposdir = none;
  backedup_pkgs_paths = paths;
}

two_are_backed_up :
    enable_package calls (new_package ("a" ∷ "b" ∷ [])) 0
    ≡ (ok tt, backed_up ("a" ∷ "b" ∷ []) (some "/a.rpm" ∷ none ∷ []), 2)
unfolding program
two_are_backed_up = refl

one_is_installed :
    restore_package calls (backed_up ("a" ∷ []) (some "/a.rpm" ∷ [])) 1
    ≡ (ok tt, record (backed_up ("a" ∷ []) (some "/a.rpm" ∷ [])) { enabled = false }, 111)
unfolding program
one_is_installed = refl

restore_package-missing_path_example :
    restore_package calls (backed_up ("a" ∷ "b" ∷ []) (some "/a.rpm" ∷ none ∷ [])) 2
    ≡ (raise type_error, backed_up ("a" ∷ "b" ∷ []) (some "/a.rpm" ∷ none ∷ []), 12)
restore_package-missing_path_example =
    restore_package-missing_path calls (backed_up ("a" ∷ "b" ∷ []) (some "/a.rpm" ∷ none ∷ [])) 2 12
      refl refl refl

-- A world that is whether the key is there.
abbrev keys : CertCalls Bool
keys = record {
  query_key = λ keyid w. (ok (if w then (0, false) else (1, true)), w);
  import_key = λ file w. (ok 0, true);
  erase_key = λ keyid w. (ok 0, false);
  exists = λ path w. true;
  mkdir_p = λ path w. (ok tt, w);
  copy2 = λ source target w. (ok tt, w);
  owner = λ path w. (ok owned, w);
  remove = λ path w. (ok tt, w);
  is_missing = λ e. false;
}

new_key_is_removed :
    let (r, o, w1) = enable_key keys (new_key "/key" "1234") false in
    let (r', o', w2) = restore_key keys o w1 in
    (r ≡ ok tt) × ((o.enabled ≡ true) × ((r' ≡ ok tt) × ((o'.enabled ≡ false) × (w2 ≡ false))))
new_key_is_removed = restore_key-enable_key keys "/key" "1234" false 0 false true refl refl refl

-- Attached subscriptions are removed; a world counts them.
abbrev rhsm : Rhsm ℕ
rhsm = record {
  register_system = λ w. (ok tt, w);
  attach_subscription = λ w. (ok tt, w);
  unregister_system = λ w. (ok tt, w);
  auto_attach_subscription = λ w. (ok true, w + 1);
  remove_subscription = λ w. (ok tt, 0);
  disable_repos = λ w. (ok tt, w);
  submgr_enable_repos = λ repos w. (ok tt, w);
  list_enabled = λ w. (ok "", w);
  repo_ids = λ output. [];
  is_unregister_error = λ e. false;
}

attachment_is_removed :
    restore_attachment rhsm (record { enabled = true; is_attached = true }) 3
    ≡ (ok tt, record { enabled = false; is_attached = true }, 0)
unfolding program
attachment_is_removed = refl
