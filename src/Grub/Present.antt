-- ===== src/Grub/Present.antt =====
-- The entry of RHEL in the boot loader (convert2rhel/grub.py).
use convert2rhel.Prelude.{
  ℕ, String, Bool, true, false, some, truthy, string_eq, Bool-cases, inl, inr, Result, ok, raise,
  if◌then◌else◌, ◌≡◌, refl, ap, ◌∙◌, arith,
}
use convert2rhel.Prelude.Dict.{lookup, get_item}
use convert2rhel.Prelude.Calls.{Call, ◌>>=◌, computed, bind-ok}
use convert2rhel.Prelude.Costs.{Leaves, At, bind-Leaves, any-Leaves, At-ok}
use convert2rhel.Grub.Devices.{BootMachine, get_efi_partition, get_device_number, get_grub_device}
use convert2rhel.Grub.Entries.{
  EfiBootLoader, EfiBootInfo, same_entry, get_canonical_path, efi_boot_info,
}
use convert2rhel.Grub.Replace.{
  default_installed_efibin_filenames, is_rhel_in_boot_entries, find_efi_path, rhel_label, verified,
  code_or_raise, create_command, create_entry, add_unless_there, find_path, add_rhel_boot_entry,
  first_path, keeps, remove_entry, against_first, with_path, with_entry, with_current,
  remove_orig_boot_entry, replace_efi_boot_entry,
}

module _ {W : Type 0} (machine : BootMachine W) where
  -- The information has an entry with the label of RHEL and the path of a file of RHEL that was
  -- found on the system.
  pub record HasRhel (info : EfiBootInfo) (w : W) : Type 0 where
    pub efi_path : String
    pub seen : W
    pub found : find_efi_path machine default_installed_efibin_filenames seen ≡ ok efi_path
    pub listed : is_rhel_in_boot_entries info efi_path (rhel_label machine) ≡ true

  abbrev IsFound : String → W → Type 0
  IsFound path seen = find_efi_path machine default_installed_efibin_filenames seen ≡ ok path

  find_path-IsFound : Leaves IsFound (find_path machine)
  find_path-IsFound = record { post = λ w. go w (find_path machine w).0 refl }
    where
      go :
          (w : W) (r : Result String)
          → find_efi_path machine default_installed_efibin_filenames w ≡ r
          → At IsFound (r, w)
      go w (ok p) e = e
      go w (raise x) e = tt

  module _ (path : String) (seen : W)
      (f : find_efi_path machine default_installed_efibin_filenames seen ≡ ok path) where
    listed-HasRhel :
        (info : EfiBootInfo) (w : W)
        → is_rhel_in_boot_entries info path (rhel_label machine) ≡ true
        → HasRhel info w
    listed-HasRhel info w h = record { efi_path = path; seen = seen; found = f; listed = h }

    verified-HasRhel : (info : EfiBootInfo) (w : W) → At HasRhel (verified machine path info, w)
    verified-HasRhel info w =
        elim (Bool-cases (is_rhel_in_boot_entries info path (rhel_label machine))) [
          | inl h ↦ rw h (listed-HasRhel info w h)
          | inr h ↦ rw h tt
        ]

    -- A call in front does not matter.
    behind :
        {A : Type 0} (first : Call W A) (rest : A → Call W EfiBootInfo)
        → ((a : A) → Leaves HasRhel (rest a))
        → Leaves HasRhel (first >>= rest)
    behind first rest h = bind-Leaves rest (any-Leaves first) (λ a w u. (h a).post w)

    create_entry-HasRhel :
        (blk_dev : String) (dev_number : ℕ)
        → Leaves HasRhel (create_entry machine blk_dev dev_number path)
    unfolding create_entry
    create_entry-HasRhel blk_dev dev_number =
        let verify : EfiBootInfo → Call W EfiBootInfo =
          λ info. computed (verified machine path info) in
        let load : Unit {0} → Call W EfiBootInfo = λ u. efi_boot_info machine >>= verify in
        let check : String × ℕ → Call W EfiBootInfo =
          λ answer. computed (code_or_raise machine answer) >>= load in
        behind (machine.run_subprocess (create_command machine blk_dev dev_number path)) check
          (λ answer. behind (computed (code_or_raise machine answer)) load (λ u.
            behind (efi_boot_info machine) verify
              (λ info. record { post = λ w. verified-HasRhel info w })))

    add_unless_there-HasRhel :
        (info : EfiBootInfo) (blk_dev : String) (dev_number : ℕ) (w : W)
        → At HasRhel (add_unless_there machine info blk_dev dev_number path w)
    add_unless_there-HasRhel info blk_dev dev_number w =
        elim (Bool-cases (is_rhel_in_boot_entries info path (rhel_label machine))) [
          | inl h ↦ rw h (listed-HasRhel info w h)
          | inr h ↦ rw h ((create_entry-HasRhel blk_dev dev_number).post w)
        ]

  add_rhel_boot_entry-Leaves :
      (info : EfiBootInfo) → Leaves HasRhel (add_rhel_boot_entry machine info)
  unfolding add_rhel_boot_entry
  add_rhel_boot_entry-Leaves info =
      let add : String → ℕ → String → Call W EfiBootInfo =
        λ blk_dev dev_number path. add_unless_there machine info blk_dev dev_number path in
      let behind_blk : ℕ → String → Call W EfiBootInfo =
        λ dev_number blk_dev. find_path machine >>= add blk_dev dev_number in
      let behind_number : ℕ → Call W EfiBootInfo =
        λ dev_number. get_grub_device machine >>= behind_blk dev_number in
      let behind_partition : String → Call W EfiBootInfo =
        λ partition. get_device_number machine partition >>= behind_number in
      bind-Leaves behind_partition (any-Leaves (get_efi_partition machine)) (λ partition w u.
        (bind-Leaves behind_number (any-Leaves (get_device_number machine partition))
            (λ dev_number w u.
              (bind-Leaves (behind_blk dev_number) (any-Leaves (get_grub_device machine))
                  (λ blk_dev w u.
                    (bind-Leaves (add blk_dev dev_number) find_path-IsFound (λ path w f.
                        add_unless_there-HasRhel path w f info blk_dev dev_number w)).post
                      w)).post
                w)).post
          w)

  -- Where `_add_rhel_boot_entry` returns, the information that it returns has an entry with the
  -- label of RHEL and the path of one of the files of RHEL that exist.
  pub add_rhel_boot_entry-HasRhel :
      (info new : EfiBootInfo) (w w' : W)
      → add_rhel_boot_entry machine info w ≡ (ok new, w')
      → HasRhel new w'
  add_rhel_boot_entry-HasRhel info new w w' e =
      At-ok HasRhel new w' (add_rhel_boot_entry machine info w)
        ((add_rhel_boot_entry-Leaves info).post w) e

  same_entry_self : (e : EfiBootLoader) → same_entry e e ≡ true
  unfolding same_entry
  same_entry_self e = ground arith

  keeps_self : (path : String) (w : W) → keeps machine path (some path) w ≡ false
  keeps_self path w = ground arith

  chosen :
      {b : Bool} (c d : Result (Unit {0}) × W) {v : Bool}
      → b ≡ v
      → (if b then c else d) ≡ (if v then c else d)
  chosen c d e = ap (λ b. if b then c else d) e

  removes :
      (info : EfiBootInfo) (entry : EfiBootLoader) (path : String) (w : W)
      → lookup info.current_bootnum info.entries ≡ some entry
      → get_item entry.boot_number info.entries ≡ ok entry
      → get_canonical_path machine entry ≡ ok (some path)
      → truthy path ≡ true
      → first_path machine info ≡ ok (some path)
      → remove_orig_boot_entry machine info info w ≡ remove_entry machine entry.boot_number w
  unfolding remove_orig_boot_entry
  removes info entry path w c o h t f =
      let n = entry.boot_number in
      ap (λ r. with_current machine info info r w) c
      ∙ ap (λ r. with_entry machine info entry r w) o
      ∙ chosen (with_path machine info n (get_canonical_path machine entry) w) (ok tt, w)
          (same_entry_self entry)
      ∙ ap (λ r. with_path machine info n r w) h
      ∙ chosen (against_first machine n path (first_path machine info) w) (ok tt, w) t
      ∙ ap (λ r. against_first machine n path r w) f
      ∙ chosen (ok tt, w) (remove_entry machine n w) (keeps_self path w)

  -- Where the entry of RHEL is there from the start, so that none is added, and the system was
  -- booted from an entry with the path of the one that is booted first, that entry is removed, also
  -- where it is the only entry of RHEL.
  pub replace_efi_boot_entry-removes_first :
      (info : EfiBootInfo) (entry : EfiBootLoader) (path : String) (w w1 w2 : W)
      → efi_boot_info machine w ≡ (ok info, w1)
      → add_rhel_boot_entry machine info w1 ≡ (ok info, w2)
      → lookup info.current_bootnum info.entries ≡ some entry
      → get_item entry.boot_number info.entries ≡ ok entry
      → get_canonical_path machine entry ≡ ok (some path)
      → truthy path ≡ true
      → first_path machine info ≡ ok (some path)
      → replace_efi_boot_entry machine w ≡ remove_entry machine entry.boot_number w2
  unfolding replace_efi_boot_entry
  replace_efi_boot_entry-removes_first info entry path w w1 w2 i a c o h t f =
      let behind_add : EfiBootInfo → EfiBootInfo → Call W (Unit {0}) =
        λ orig new. remove_orig_boot_entry machine orig new in
      bind-ok (efi_boot_info machine) (λ orig. add_rhel_boot_entry machine orig >>= behind_add orig)
        i
      ∙ bind-ok (add_rhel_boot_entry machine info) (behind_add info) a
      ∙ removes info entry path w2 c o h t f
