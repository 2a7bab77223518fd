-- ===== src/Grub/Removal.antt =====
-- Which entry of the boot loader is removed (convert2rhel/grub.py, `_remove_orig_boot_entry`).
use convert2rhel.Prelude.{
  String, true, false, Option, none, some, truthy, string_eq, Bool-cases, inl, inr, ◌⊎◌, Result, ok,
  raise, ◌≡◌, refl, ap, if◌then◌else◌, arith,
}
use convert2rhel.Prelude.Dict.{lookup, get_item}
use convert2rhel.Grub.Devices.{BootMachine}
use convert2rhel.Grub.Entries.{EfiBootLoader, EfiBootInfo, same_entry, get_canonical_path}
use convert2rhel.Grub.Replace.{
  first_path, keeps, remove_entry, against_first, with_path, with_entry, with_current,
  remove_orig_boot_entry,
}

module _ {W : Type 0} (machine : BootMachine W) (orig new : EfiBootInfo) (w : W) where
  -- The entry that is removed, and why it may be.
  pub record IsRemovable (entry : EfiBootLoader) : Type 0 where
    pub before : EfiBootLoader
    pub path : String
    pub first : Option String
    pub current : lookup orig.current_bootnum new.entries ≡ some entry
    pub was_there : get_item entry.boot_number orig.entries ≡ ok before
    pub unchanged : same_entry entry before ≡ true
    pub has_path : get_canonical_path machine entry ≡ ok (some path)
    pub first_has : first_path machine new ≡ ok first
    pub not_needed : (machine.exists path w ≡ false) ⊎ (first ≡ some path)

  -- Nothing is run, or the entry is removed.
  abbrev IsSafe : Result (Unit {0}) × W → Type 0
  IsSafe end =
      (end.1 ≡ w)
      ⊎ ((entry : EfiBootLoader) × IsRemovable entry
          × (end ≡ remove_entry machine entry.boot_number w))

  keeps-false :
      (path : String) (first : Option String)
      → keeps machine path first w ≡ false
      → (machine.exists path w ≡ false) ⊎ (first ≡ some path)
  keeps-false path none k = inl (ground (arith, k))
  keeps-false path (some q) k = elim (Bool-cases (machine.exists path w)) [
    | inl e ↦ inr (ground (arith, k, e))
    | inr e ↦ inl e
  ]

  module _ (entry before : EfiBootLoader) where
    module _ (c : lookup orig.current_bootnum new.entries ≡ some entry)
        (o : get_item entry.boot_number orig.entries ≡ ok before)
        (u : same_entry entry before ≡ true) where
      against_first-IsSafe :
          (path : String) (r : Result (Option String))
          → get_canonical_path machine entry ≡ ok (some path)
          → first_path machine new ≡ r
          → IsSafe (against_first machine entry.boot_number path r w)
      against_first-IsSafe path (raise e) h f = inl refl
      against_first-IsSafe path (ok first) h f = elim (Bool-cases (keeps machine path first w)) [
        | inl k ↦ rw k (inl refl)
        | inr k ↦ inr (
          entry,
          (record {
            before = before;
            path = path;
            first = first;
            current = c;
            was_there = o;
            unchanged = u;
            has_path = h;
            first_has = f;
            not_needed = keeps-false path first k;
          }),
          ap (λ b. (if b then (ok tt, w) else remove_entry machine entry.boot_number w)) k,
        )
      ]

      with_path-IsSafe :
          (r : Result (Option String))
          → get_canonical_path machine entry ≡ r
          → IsSafe (with_path machine new entry.boot_number r w)
      with_path-IsSafe (raise e) h = inl refl
      with_path-IsSafe (ok none) h = inl refl
      with_path-IsSafe (ok (some path)) h = elim (Bool-cases (truthy path)) [
        | inl t ↦ rw t (against_first-IsSafe path (first_path machine new) h refl)
        | inr t ↦ rw t (inl refl)
      ]

  with_entry-IsSafe :
      (entry : EfiBootLoader) (r : Result EfiBootLoader)
      → lookup orig.current_bootnum new.entries ≡ some entry
      → get_item entry.boot_number orig.entries ≡ r
      → IsSafe (with_entry machine new entry r w)
  with_entry-IsSafe entry (raise e) c o = inl refl
  with_entry-IsSafe entry (ok before) c o = elim (Bool-cases (same_entry entry before)) [
    | inl u ↦ rw u (with_path-IsSafe entry before c o u (get_canonical_path machine entry) refl)
    | inr u ↦ rw u (inl refl)
  ]

  with_current-IsSafe :
      (o : Option EfiBootLoader)
      → lookup orig.current_bootnum new.entries ≡ o
      → IsSafe (with_current machine orig new o w)
  with_current-IsSafe none c = inl refl
  with_current-IsSafe (some entry) c =
      with_entry-IsSafe entry (get_item entry.boot_number orig.entries) c refl

  -- Behind the new entry, nothing is run, or one entry is removed: that which the system was booted
  -- from, where it is unchanged, refers to a file, and the file does not exist or is the one that
  -- is booted first.
  pub remove_orig_boot_entry-IsSafe :
      ((remove_orig_boot_entry machine orig new w).1 ≡ w)
      ⊎ ((entry : EfiBootLoader) × IsRemovable entry
          × (remove_orig_boot_entry machine orig new w ≡ remove_entry machine entry.boot_number w))
  unfolding remove_orig_boot_entry
  remove_orig_boot_entry-IsSafe = with_current-IsSafe (lookup orig.current_bootnum new.entries) refl
