-- ===== src/Backup/Files/Laws.antt =====
-- What restoring a file gives back (convert2rhel/backup/files.py).
use convert2rhel.Prelude.{
  String, true, false, Option, some, ◌≡◌, ◌≢◌, ◌∙◌, inl, inr, ok, Result-cases, Bool-cases, arith,
}
use convert2rhel.Backup.Files.{
  System, RestorableFile, PlainFile, enable, make_directory, save_copy, restore, drop_copy,
  hash_backup_path, hashed_directory, enable_missing, remove_file,
}

-- What is relied on of the system: a copy has the content of its source, a file that was removed
-- is no file, and the calls leave what other files hold.
pub record Documented {W : Type 0} (system : System W) (content : String → W → Option String)
    : Type 0 where
  pub copied :
      (p q : String) (w : W)
      → (system.copy2 p q w).0 ≡ ok tt
      → content q ((system.copy2 p q w).1) ≡ content p w
  pub makedirs_keeps :
      (p q : String) (w : W)
      → system.is_file q w ≡ true
      → content q ((system.makedirs p w).1) ≡ content q w
  pub remove_keeps :
      (p q : String) (w : W) → q ≢ p → content q ((system.remove p w).1) ≡ content q w
  pub removed :
      (p : String) (w : W)
      → (system.remove p w).0 ≡ ok tt
      → system.is_file p ((system.remove p w).1) ≡ false

module _ {W : Type 0} (system : System W) (content : String → W → Option String)
    (documented : Documented system content) where
  make_directory-keeps :
      (p : String) (w : W)
      → system.is_file p w ≡ true
      → content p ((make_directory system p w).1) ≡ content p w
  unfolding make_directory
  make_directory-keeps p w h =
      let k = documented.makedirs_keeps (hashed_directory system p) p w h in ground (arith, k)

  save_copy-ok :
      (f : RestorableFile) (w : W)
      → (save_copy system f w).0 ≡ ok tt
      → ((save_copy system f w).1 ≡ record {
        filepath = f.filepath;
        backup_path = some (hash_backup_path system f.filepath);
        enabled = true;
      })
        × (content (hash_backup_path system f.filepath) ((save_copy system f w).2)
            ≡ content f.filepath w)
  unfolding save_copy
  save_copy-ok f w h =
      elim (Result-cases ((system.copy2 f.filepath (hash_backup_path system f.filepath) w).0)) [
        | inl (_, e) ↦
            let k = documented.copied f.filepath (hash_backup_path system f.filepath) w e in
            (ground (arith, e), ground (arith, e, k))
        | inr (x, e) ↦ ground (arith, h, e)
      ]

  abbrev backup_of : RestorableFile → String
  backup_of f = hash_backup_path system f.filepath

  abbrev saved : RestorableFile → RestorableFile
  saved f = record { filepath = f.filepath; backup_path = some (backup_of f); enabled = true }

  enable-ok :
      (f : RestorableFile) (w : W)
      → f.enabled ≡ false
      → system.is_file f.filepath w ≡ true
      → (enable system f w).0 ≡ ok tt
      → ((enable system f w).1 ≡ saved f)
        × (content (backup_of f) ((enable system f w).2) ≡ content f.filepath w)
  unfolding enable
  enable-ok f w off file h = elim (Result-cases ((make_directory system f.filepath w).0)) [
    | inl (_, e) ↦
        let w' = (make_directory system f.filepath w).1 in
        let went : (save_copy system f w').0 ≡ ok tt = ground (arith, off, file, e, h) in
        let (same, held) = save_copy-ok f w' went in
        let kept = make_directory-keeps f.filepath w file in
        (ground (arith, off, file, e, same), ground (arith, off, file, e, held, kept))
    | inr (x, e) ↦ ground (arith, off, file, e, h)
  ]

  drop_copy-ok :
      (path : String) (f : RestorableFile) (w : W)
      → (drop_copy system path f w).0 ≡ ok tt
      → ((drop_copy system path f w).1.enabled ≡ false)
        × ((drop_copy system path f w).2 ≡ (system.remove path w).1)
  unfolding drop_copy
  drop_copy-ok path f w h = elim (Result-cases ((system.remove path w).0)) [
    | inl (_, e) ↦ (ground (arith, e), ground (arith, e))
    | inr (x, e) ↦ ground (arith, e, h)
  ]

  restore-ok :
      (f : RestorableFile) (w : W)
      → f.filepath ≢ backup_of f
      → (restore system true (saved f) w).0 ≡ ok tt
      → ((restore system true (saved f) w).1.enabled ≡ false)
        × (content f.filepath ((restore system true (saved f) w).2) ≡ content (backup_of f) w)
  unfolding restore
  restore-ok f w apart h = elim (Result-cases ((system.copy2 (backup_of f) f.filepath w).0)) [
    | inl (_, e) ↦
        let w' = (system.copy2 (backup_of f) f.filepath w).1 in
        let went : (drop_copy system (backup_of f) (saved f) w').0 ≡ ok tt = ground (arith, e, h) in
        let (off, gone) = drop_copy-ok (backup_of f) (saved f) w' went in
        let held = documented.copied (backup_of f) f.filepath w e in
        let kept = documented.remove_keeps (backup_of f) f.filepath w' apart in
        (ground (arith, e, off), ground (arith, e, gone, kept, held))
    | inr (x, e) ↦ ground (arith, e, h)
  ]

  -- A file that was enabled and is restored in a rollback holds what it held when it was enabled,
  -- and is no longer enabled, whatever was written to it between: if neither raises, and nobody
  -- touched its copy, which is another file.
  pub restore-enable :
      (f : RestorableFile) (w v : W)
      → f.enabled ≡ false
      → system.is_file f.filepath w ≡ true
      → f.filepath ≢ hash_backup_path system f.filepath
      → (enable system f w).0 ≡ ok tt
      → content (hash_backup_path system f.filepath) v
        ≡ content (hash_backup_path system f.filepath) ((enable system f w).2)
      → (restore system true ((enable system f w).1) v).0 ≡ ok tt
      → (content f.filepath ((restore system true ((enable system f w).1) v).2)
          ≡ content f.filepath w)
        × ((restore system true ((enable system f w).1) v).1.enabled ≡ false)
  restore-enable f w v off file apart h untouched h' =
      let (same, held) = enable-ok f w off file h in
      let (done, back) = restore-ok f v apart (rw same at h') in
      (rw same (back ∙ untouched ∙ held), rw same done)

  -- A file that was missing when it was marked is no file behind a restore that does not raise,
  -- whether it was created between or not.
  pub remove_file-enable_missing :
      (f : PlainFile) (w v : W)
      → f.enabled ≡ false
      → system.is_file f.filepath w ≡ false
      → (remove_file system ((enable_missing system f w).1) v).0 ≡ ok tt
      → system.is_file f.filepath ((remove_file system ((enable_missing system f w).1) v).2) ≡ false
  unfolding enable_missing remove_file
  remove_file-enable_missing f w v off absent h = elim (Bool-cases (system.is_file f.filepath v)) [
    | inr k ↦ ground (arith, off, absent, k)
    | inl k ↦ elim (Result-cases ((system.remove f.filepath v).0)) [
      | inl (_, e) ↦ ground (arith, off, absent, k, e, documented.removed f.filepath v e)
      | inr (x, e) ↦ ground (arith, off, absent, k, e, h)
    ]
  ]
