-- ===== src/Grub/Replace.antt =====
-- The new entry of the boot loader and the removal of the original one (convert2rhel/grub.py).
use convert2rhel.Prelude.{
  ℕ, String, ◌<>◌, Bool, false, not, ◌&&◌, Option, none, some, List, [], ◌∷◌, any, truthy, ◌==◌,
  nat_eq, string_eq, Result, ok, raise, index_error, if◌then◌else◌,
}
use convert2rhel.Prelude.Text.{has_text}
use convert2rhel.Prelude.Dict.{lookup, get_item}
use convert2rhel.Prelude.Calls.{Call, ◌>>=◌, ◌>>◌, computed, pure, do_nothing}
use convert2rhel.Grub.Paths.{rhel_efidir_canonical_path, canonical_path_to_efi_format}
use convert2rhel.Grub.Devices.{
  BootMachine, bootloader_error, get_efi_partition, get_device_number, get_grub_device,
}
use convert2rhel.Grub.Entries.{
  EfiBootLoader, EfiBootInfo, same_entry, get_canonical_path, efi_boot_info,
}

abbrev pub default_installed_efibin_filenames : List String
default_installed_efibin_filenames = "shimx64.efi" ∷ "grubx64.efi" ∷ []

-- An entry with the label, whose source has the path
abbrev pub is_rhel_entry : String → String → String × EfiBootLoader → Bool
is_rhel_entry efi_path label (number, e) = e.label == label && has_text efi_path e.efi_bin_source

-- `_is_rhel_in_boot_entries`
unfoldable pub is_rhel_in_boot_entries : EfiBootInfo → String → String → Bool
is_rhel_in_boot_entries info efi_path label = any (is_rhel_entry efi_path label) info.entries

module _ {W : Type 0} (machine : BootMachine W) where
  -- The first of the files that exists, in the format of UEFI
  unfoldable pub find_efi_path : List String → W → Result String
  find_efi_path [] w = raise bootloader_error
  find_efi_path (name ∷ names) w =
      let rest = find_efi_path names w in
      let path = rhel_efidir_canonical_path <> name in
      if machine.exists path w then ok (canonical_path_to_efi_format path) else rest

  abbrev pub rhel_label : String
  rhel_label = "Red Hat Enterprise Linux " <> machine.str machine.major

  abbrev pub code_or_raise : String × ℕ → Result (Unit {0})
  code_or_raise (output, code) = if code == 0 then ok tt else raise bootloader_error

  -- The new information, where it has the entry
  abbrev pub verified : String → EfiBootInfo → Result EfiBootInfo
  verified efi_path info =
      if is_rhel_in_boot_entries info efi_path rhel_label then ok info else raise bootloader_error

  abbrev pub create_command : String → ℕ → String → List String
  create_command blk_dev dev_number efi_path =
      "/usr/sbin/efibootmgr"
      ∷ "--create"
      ∷ "--disk"
      ∷ blk_dev
      ∷ "--part"
      ∷ machine.str dev_number
      ∷ "--loader"
      ∷ efi_path
      ∷ "--label"
      ∷ rhel_label
      ∷ []

  unfoldable pub create_entry : String → ℕ → String → Call W EfiBootInfo
  create_entry blk_dev dev_number efi_path = do
    answer ← machine.run_subprocess (create_command blk_dev dev_number efi_path)
    computed (code_or_raise answer)
    info ← efi_boot_info machine
    computed (verified efi_path info)

  abbrev pub add_unless_there : EfiBootInfo → String → ℕ → String → Call W EfiBootInfo
  add_unless_there info blk_dev dev_number efi_path =
      if is_rhel_in_boot_entries info efi_path rhel_label
      then pure info
      else create_entry blk_dev dev_number efi_path

  abbrev pub find_path : Call W String
  find_path w = (find_efi_path default_installed_efibin_filenames w, w)

  -- `_add_rhel_boot_entry`
  unfoldable pub add_rhel_boot_entry : EfiBootInfo → Call W EfiBootInfo
  add_rhel_boot_entry info = do
    partition ← get_efi_partition machine
    dev_number ← get_device_number machine partition
    blk_dev ← get_grub_device machine
    efi_path ← find_path
    add_unless_there info blk_dev dev_number efi_path

  abbrev first_of_order : List String → Result String
  first_of_order [] = raise (index_error "tuple index out of range")
  first_of_order (x ∷ xs) = ok x

  abbrev pub path_of : Result EfiBootLoader → Result (Option String)
  path_of (raise e) = raise e
  path_of (ok entry) = get_canonical_path machine entry

  -- The path of the entry that is booted first
  unfoldable pub first_path : EfiBootInfo → Result (Option String)
  first_path info = elim (first_of_order info.boot_order) [
    | raise e ↦ raise e
    | ok number ↦ path_of (get_item number info.entries)
  ]

  abbrev same_path : String → Option String → Bool
  same_path p none = false
  same_path p (some q) = p == q

  -- A file that is there, and is not that of the first entry, keeps its entry.
  abbrev pub keeps : String → Option String → W → Bool
  keeps path first w = machine.exists path w && not (same_path path first)

  -- The return code is looked at for the log only.
  unfoldable pub remove_entry : String → Call W (Unit {0})
  remove_entry number =
      machine.run_subprocess ("/usr/sbin/efibootmgr" ∷ "-Bb" ∷ number ∷ []) >>= λ answer. do_nothing

  abbrev pub remove_unless_kept : String → String → Option String → W → Result (Unit {0}) × W
  remove_unless_kept number path first w =
      if keeps path first w then (ok tt, w) else remove_entry number w

  abbrev pub against_first : String → String → Result (Option String) → W → Result (Unit {0}) × W
  against_first number path (raise e) w = (raise e, w)
  against_first number path (ok first) w = remove_unless_kept number path first w

  -- Where the original entry has a path
  abbrev pub with_path : EfiBootInfo → String → Result (Option String) → W → Result (Unit {0}) × W
  with_path new number (raise e) w = (raise e, w)
  with_path new number (ok none) w = (ok tt, w)
  with_path new number (ok (some path)) w =
      if truthy path then against_first number path (first_path new) w else (ok tt, w)

  -- Where the entry is still there, and where it was in the original information
  abbrev pub with_entry :
      EfiBootInfo → EfiBootLoader → Result EfiBootLoader → W → Result (Unit {0}) × W
  with_entry new entry (raise e) w = (raise e, w)
  with_entry new entry (ok before) w =
      if same_entry entry before
      then with_path new entry.boot_number (get_canonical_path machine entry) w
      else (ok tt, w)

  abbrev pub described : Result EfiBootLoader → Result (Unit {0})
  described (raise e) = raise e
  described (ok entry) = ok tt

  abbrev pub with_current :
      EfiBootInfo → EfiBootInfo → Option EfiBootLoader → W → Result (Unit {0}) × W
  with_current orig new none w = (described (get_item orig.current_bootnum orig.entries), w)
  with_current orig new (some entry) w =
      with_entry new entry (get_item entry.boot_number orig.entries) w

  -- `_remove_orig_boot_entry`
  unfoldable pub remove_orig_boot_entry : EfiBootInfo → EfiBootInfo → Call W (Unit {0})
  remove_orig_boot_entry orig new w =
      with_current orig new (lookup orig.current_bootnum new.entries) w

  unfoldable pub replace_efi_boot_entry : Call W (Unit {0})
  replace_efi_boot_entry = do
    orig ← efi_boot_info machine
    new ← add_rhel_boot_entry orig
    remove_orig_boot_entry orig new
