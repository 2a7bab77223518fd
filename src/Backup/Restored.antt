-- ===== src/Backup/Restored.antt =====
-- What the rollback of packages and keys restores (convert2rhel/backup/packages.py,
-- convert2rhel/backup/certs.py).
use convert2rhel.Prelude.{
  ℕ, String, Bool, true, false, Option, none, some, List, [], ◌∷◌, has_items, any, nat_eq,
  type_error, ok, raise, if◌then◌else◌, ◌≡◌, refl, arith,
}
use convert2rhel.Backup.Methods.{as_texts}
use convert2rhel.Backup.Packages.{
  RestorablePackage, PackageCalls, reinstall, restore_package, install_local_rpms,
}
use convert2rhel.Backup.Certs.{RpmKey, CertCalls, installed, import_new, enable_key, restore_key}

-- A package that could not be downloaded
abbrev pub is_missing_path : Option String → Bool
is_missing_path none = true
is_missing_path (some path) = false

as_texts-raises :
    (paths : List (Option String))
    → any is_missing_path paths ≡ true
    → as_texts paths ≡ raise type_error
as_texts-raises [] h = cc
as_texts-raises (none ∷ rest) h = refl
as_texts-raises (some path ∷ rest) h = ground (arith, as_texts-raises rest h)

any-has_items :
    (paths : List (Option String)) → any is_missing_path paths ≡ true → has_items paths ≡ true
any-has_items [] h = cc
any-has_items (path ∷ rest) h = refl

-- Where one of the packages could not be downloaded, the rollback of a backup raises a TypeError and
-- installs none of its packages: the system is as the removal of orphan folders leaves it.
pub restore_package-missing_path :
    {W : Type 0} (calls : PackageCalls W) (o : RestorablePackage) (w w' : W)
    → o.enabled ≡ true
    → any is_missing_path o.backedup_pkgs_paths ≡ true
    → calls.remove_orphan_folders w ≡ (ok tt, w')
    → restore_package calls o w ≡ (raise type_error, o, w')
unfolding restore_package reinstall install_local_rpms
restore_package-missing_path calls o w w' e m f =
    ground
      (arith, e, f, as_texts-raises o.backedup_pkgs_paths m, any-has_items o.backedup_pkgs_paths m)

abbrev pub new_key : String → String → RpmKey
new_key keyfile keyid = record {
  enabled = false;
  previously_installed = none;
  keyfile = keyfile;
  keyid = keyid;
}

-- A key that is enabled and restored leaves the system as it was, whether it was installed before or
-- not, where the query of rpm finds it or not and the removal of a key undoes its import.
pub restore_key-enable_key :
    {W : Type 0} (calls : CertCalls W) (keyfile keyid : String) (there : Bool) (code : ℕ)
    (w imported : W)
    → calls.query_key keyid w ≡ (ok (if there then (0, false) else (1, true)), w)
    → calls.import_key keyfile w ≡ (ok 0, imported)
    → calls.erase_key keyid imported ≡ (ok code, w)
    → let (r, o, w1) = enable_key calls (new_key keyfile keyid) w in
      let (r', o', w2) = restore_key calls o w1 in
      (r ≡ ok tt) × ((o.enabled ≡ true) × ((r' ≡ ok tt) × ((o'.enabled ≡ false) × (w2 ≡ w))))
unfolding enable_key restore_key installed import_new
restore_key-enable_key calls keyfile keyid true code w imported q i e = (
  ground (arith, q),
  (ground (arith, q), (ground (arith, q), (ground (arith, q), ground (arith, q)))),
)
restore_key-enable_key calls keyfile keyid false code w imported q i e = (
  ground (arith, q, i, e),
  (
    ground (arith, q, i, e),
    (ground (arith, q, i, e), (ground (arith, q, i, e), ground (arith, q, i, e))),
  ),
)
