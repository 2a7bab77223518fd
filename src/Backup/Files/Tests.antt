-- ===== src/Backup/Files/Tests.antt =====
-- A disk of texts, with one file that is backed up and one that is missing
-- (convert2rhel/backup/files.py).
use convert2rhel.Prelude.{
  String, ◌<>◌, Bool, true, false, Option, none, some, ◌≡◌, ◌≢◌, refl, ap, ok, raise, os_error,
  ◌==◌, string_eq, if◌then◌else◌, arith, Option-cases, inl, inr,
}
use convert2rhel.Backup.Files.{
  System, RestorableFile, PlainFile, enable, make_directory, save_copy, restore, drop_copy,
  hash_backup_path, enable_missing, remove_file,
}
use convert2rhel.Backup.Files.Laws.{Documented, restore-enable, remove_file-enable_missing}

abbrev Disk : Type 0
Disk = String → Option String

abbrev write : String → Option String → Disk → Disk
write p c d q = if q == p then c else d q

abbrev is_some : Option String → Bool
is_some none = false
is_some (some c) = true

abbrev content : String → Disk → Option String
content p d = d p

abbrev disk_system : System Disk
disk_system = record {
  is_absolute = λ p. true;
  is_dir = λ p d. false;
  is_file = λ p d. is_some (d p);
  exists = λ p d. true;
  split = λ p. ("/etc", "yum.conf");
  join = λ p q. p <> ("/" <> q);
  digest = λ p. "0123";
  makedirs = λ p d. (ok tt, d);
  copy2 = λ p q d. elim (d p) [ none ↦ (raise os_error, d) | some c ↦ (ok tt, write q (some c) d) ];
  remove = λ p d. elim (d p) [ none ↦ (raise os_error, d) | some c ↦ (ok tt, write p none d) ];
  backup_dir = "/backup";
}

disk-Documented : Documented disk_system content
disk-Documented = record {
  copied = λ p q d h. elim (Option-cases (d p)) [
    | inl e ↦ ground (arith, e, h)
    | inr (c, e) ↦ ground (arith, e)
  ];
  makedirs_keeps = λ p q d h. refl;
  remove_keeps = λ p q d h. elim (Option-cases (d p)) [
    | inl e ↦ ground (arith, e)
    | inr (c, e) ↦ ground (arith, e, h)
  ];
  removed = λ p d h. elim (Option-cases (d p)) [
    | inl e ↦ ground (arith, e, h)
    | inr (c, e) ↦ ground (arith, e)
  ];
}

abbrev start : Disk
start = write "/etc/yum.conf" (some "old") (λ p. none)

abbrev file : RestorableFile
file = record { filepath = "/etc/yum.conf"; backup_path = none; enabled = false }

abbrev rewritten : Disk
rewritten = write "/etc/yum.conf" (some "new") ((enable disk_system file start).2)

program : Unit {0}
unfolding string_eq enable make_directory save_copy restore drop_copy hash_backup_path
    enable_missing remove_file
program = tt

apart : file.filepath ≢ hash_backup_path disk_system file.filepath
unfolding program
apart h = let k : true ≡ false = ap (λ s. s == "/etc/yum.conf") h in cc

restore-enable_example :
    (content "/etc/yum.conf"
        ((restore disk_system true ((enable disk_system file start).1) rewritten).2)
      ≡ content "/etc/yum.conf" start)
    × ((restore disk_system true ((enable disk_system file start).1) rewritten).1.enabled ≡ false)
unfolding program
restore-enable_example =
    restore-enable disk_system content disk-Documented file start rewritten refl refl apart refl
      refl refl

abbrev marked : PlainFile
marked = record { filepath = "/etc/new"; enabled = false }

abbrev created : Disk
created = write "/etc/new" (some "new") start

remove_file-enable_missing_test :
    is_some (
      content "/etc/new"
        ((remove_file disk_system ((enable_missing disk_system marked start).1) created).2))
    ≡ false
unfolding program
remove_file-enable_missing_test =
    remove_file-enable_missing disk_system content disk-Documented marked start created refl refl
      refl
