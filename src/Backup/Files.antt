-- ===== src/Backup/Files.antt =====
-- Files that a rollback restores or removes (convert2rhel/backup/files.py). The calls of os,
-- os.path, shutil and hashlib are parameters; what is logged is left out.
mod Laws
mod Tests
use convert2rhel.Prelude.{
  String, Bool, true, false, not, Option, none, some, Exn, os_error, critical_error, type_error,
  Result, ok, raise, if◌then◌else◌,
}

-- What the classes call of the system `W`. A call may raise, and changes the system also then.
pub record System (W : Type 0) : Type 0 where
  pub is_absolute : String → Bool
  pub is_dir : String → W → Bool
  pub is_file : String → W → Bool
  pub exists : String → W → Bool
  pub split : String → String × String
  pub join : String → String → String
  -- `hashlib.md5(path.encode()).hexdigest()`
  pub digest : String → String
  pub makedirs : String → W → Result (Unit {0}) × W
  pub copy2 : String → String → W → Result (Unit {0}) × W
  pub remove : String → W → Result (Unit {0}) × W
  -- `BACKUP_DIR`
  pub backup_dir : String

pub record RestorableFile : Type 0 where
  pub filepath : String
  pub backup_path : Option String
  pub enabled : Bool

-- `MissingFile` and `InstalledFile` have these attributes.
pub record PlainFile : Type 0 where
  pub filepath : String
  pub enabled : Bool

-- `except (OSError, IOError)`
abbrev pub is_os_error : Exn → Bool
is_os_error os_error = true
is_os_error _ = false

module _ {W : Type 0} (system : System W) where
  -- `RestorableFile.__init__`
  unfoldable pub new_restorable_file : String → W → Result RestorableFile
  new_restorable_file filepath w =
      if not (system.is_absolute filepath)
      then raise type_error
      else if system.is_dir filepath w
      then raise type_error
      else ok (record { filepath = filepath; backup_path = none; enabled = false })

  abbrev pub hashed_directory : String → String
  hashed_directory filepath =
      system.join system.backup_dir (system.digest ((system.split filepath).0))

  -- The path that `_hash_backup_path` returns.
  unfoldable pub hash_backup_path : String → String
  hash_backup_path filepath = system.join (hashed_directory filepath) ((system.split filepath).1)

  -- The directory that it makes.
  unfoldable pub make_directory : String → W → Result (Unit {0}) × W
  make_directory filepath w =
      if system.exists (hashed_directory filepath) w
      then (ok tt, w)
      else system.makedirs (hashed_directory filepath) w

  abbrev pub as_critical : Exn → Exn
  as_critical e = if is_os_error e then critical_error else e

  -- The copy of `RestorableFile.enable`, behind the directory.
  unfoldable pub save_copy : RestorableFile → W → Result (Unit {0}) × RestorableFile × W
  save_copy f w =
      let path = hash_backup_path f.filepath in
      let (r, w') = system.copy2 f.filepath path w in
      elim r [
        | ok _ ↦
            (ok tt, record { filepath = f.filepath; backup_path = some path; enabled = true }, w')
        | raise e ↦ (raise (as_critical e), record f { backup_path = some path }, w')
      ]

  -- `RestorableFile.enable`
  unfoldable pub enable : RestorableFile → W → Result (Unit {0}) × RestorableFile × W
  enable f w =
      if f.enabled
      then (ok tt, f, w)
      else if system.is_file f.filepath w
      then (elim ((make_directory f.filepath w).0) [
        | ok _ ↦ save_copy f ((make_directory f.filepath w).1)
        | raise e ↦ (raise (as_critical e), f, (make_directory f.filepath w).1)
      ])
      else (ok tt, f, w)

  -- The removal of the copy, in a rollback.
  unfoldable pub drop_copy : String → RestorableFile → W → Result (Unit {0}) × RestorableFile × W
  drop_copy path f w = elim ((system.remove path w).0) [
    | ok _ ↦ (ok tt, record f { enabled = false }, (system.remove path w).1)
    | raise e ↦ (raise e, f, (system.remove path w).1)
  ]

  -- `RestorableFile.restore`. Copying from None raises TypeError.
  unfoldable pub restore : Bool → RestorableFile → W → Result (Unit {0}) × RestorableFile × W
  restore rollback f w =
      if f.enabled
      then (elim f.backup_path [
        | none ↦ (raise type_error, f, w)
        | some path ↦ elim ((system.copy2 path f.filepath w).0) [
          | ok _ ↦
              if rollback
              then drop_copy path f ((system.copy2 path f.filepath w).1)
              else (ok tt, f, (system.copy2 path f.filepath w).1)
          | raise e ↦ (raise e, f, (system.copy2 path f.filepath w).1)
        ]
      ])
      else (ok tt, f, w)

  -- `RestorableFile.remove`
  unfoldable pub remove_original : RestorableFile → W → Result (Unit {0}) × W
  remove_original f w = elim ((system.remove f.filepath w).0) [
    | ok _ ↦ (ok tt, (system.remove f.filepath w).1)
    | raise e ↦ (if is_os_error e then ok tt else raise e, (system.remove f.filepath w).1)
  ]

  -- `MissingFile.enable`
  unfoldable pub enable_missing : PlainFile → W → Result (Unit {0}) × PlainFile × W
  enable_missing f w =
      if f.enabled
      then (ok tt, f, w)
      else if system.is_file f.filepath w
      then (ok tt, f, w)
      else (ok tt, record f { enabled = true }, w)

  -- `InstalledFile.enable`
  unfoldable pub enable_installed : PlainFile → W → Result (Unit {0}) × PlainFile × W
  enable_installed f w =
      if f.enabled then (ok tt, f, w) else (ok tt, record f { enabled = true }, w)

  -- `MissingFile.restore` and `InstalledFile.restore`
  unfoldable pub remove_file : PlainFile → W → Result (Unit {0}) × PlainFile × W
  remove_file f w =
      if f.enabled
      then (if system.is_file f.filepath w
          then (elim ((system.remove f.filepath w).0) [
            | ok _ ↦ (ok tt, record f { enabled = false }, (system.remove f.filepath w).1)
            | raise e ↦ (raise e, f, (system.remove f.filepath w).1)
          ])
          else (ok tt, f, w))
      else (ok tt, f, w)
