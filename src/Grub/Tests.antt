-- ===== src/Grub/Tests.antt =====
-- Runs of convert2rhel/grub.py on a machine that is booted from an entry of RHEL.
use convert2rhel.Prelude.{
  ℕ, suc, String, true, none, some, [], ◌∷◌, truthy, ◌==◌, string_eq, nat_eq, ok, if◌then◌else◌,
  ◌⊎◌, ◌≡◌, refl,
}
use convert2rhel.Prelude.Text.{starts_with, has_text, has_char, split_all}
use convert2rhel.Prelude.Dict.{lookup, get_item, insert}
use convert2rhel.Grub.Paths.{
  replace_char, without_char, strip_left, without_text, drop_chars, behind_last, partition_text,
  efi_path_to_canonical, canonical_path_to_efi_format,
}
use convert2rhel.Grub.Devices.{
  BootMachine, is_efi, get_partition, get_efi_partition, get_blk_device, get_device_number,
  get_grub_device,
}
use convert2rhel.Grub.Entries.{
  EfiBootLoader, EfiBootInfo, same_entry, marked_value, get_canonical_path, parse_efi_boot_entries,
  parse_info, efi_boot_info,
}
use convert2rhel.Grub.Replace.{
  is_rhel_in_boot_entries, find_efi_path, add_rhel_boot_entry, first_path, remove_entry,
  remove_orig_boot_entry, replace_efi_boot_entry,
}
use convert2rhel.Grub.Removal.{IsRemovable, remove_orig_boot_entry-IsSafe}
use convert2rhel.Grub.Present.{
  HasRhel, add_rhel_boot_entry-HasRhel, replace_efi_boot_entry-removes_first,
}

program : Unit {0}
unfolding starts_with has_text has_char split_all lookup get_item insert replace_char without_char
    strip_left without_text drop_chars behind_last partition_text efi_path_to_canonical
    canonical_path_to_efi_format is_efi get_partition get_efi_partition get_blk_device
    get_device_number get_grub_device same_entry marked_value get_canonical_path
    parse_efi_boot_entries parse_info efi_boot_info is_rhel_in_boot_entries find_efi_path
    add_rhel_boot_entry first_path remove_entry remove_orig_boot_entry replace_efi_boot_entry
    string_eq nat_eq
program = tt

shim_path :
    canonical_path_to_efi_format "/boot/efi/EFI/redhat/shimx64.efi" ≡ "\\EFI\\redhat\\shimx64.efi"
unfolding program
shim_path = refl

partition_number : partition_text "/dev/sda1: PART_ENTRY_NUMBER=\"1\"" ≡ "1"
unfolding program
partition_number = refl

abbrev shim_source : String
shim_source = "HD(1,GPT)/File(\\EFI\\redhat\\shimx64.efi)"

-- The world counts the commands.
abbrev machine : BootMachine ℕ
machine = record {
  major = 8;
  str = λ n. if n == 8 then "8" else "1";
  run_subprocess = λ cmd w. (ok ("x", 0), suc w);
  exists = λ path w. true;
  is_mount = λ path w. true;
  strip = λ s. s;
  splitlines = λ s. "entry" ∷ "BootCurrent:0001" ∷ "BootOrder:0001,0002" ∷ [];
  int = λ s. ok 1;
  match_entry = λ line.
      if line == "entry"
      then some ("0001", "*", "Red Hat Enterprise Linux 8", shim_source)
      else none;
  search_path = λ source. some "\\EFI\\redhat\\shimx64.efi";
}

abbrev rhel : EfiBootLoader
rhel = record {
  boot_number = "0001";
  label = "Red Hat Enterprise Linux 8";
  active = true;
  efi_bin_source = shim_source;
}

abbrev info : EfiBootInfo
info = record {
  current_bootnum = "0001";
  boot_order = "0001" ∷ "0002" ∷ [];
  entries = ("0001", rhel) ∷ [];
}

load_info : efi_boot_info machine 0 ≡ (ok info, 1)
unfolding program
load_info = refl

add_rhel : add_rhel_boot_entry machine info 1 ≡ (ok info, 5)
unfolding program
add_rhel = refl

add_rhel_boot_entry-HasRhel_example : HasRhel machine info 5
add_rhel_boot_entry-HasRhel_example = add_rhel_boot_entry-HasRhel machine info info 1 5 add_rhel

abbrev shim : String
shim = "/boot/efi/EFI/redhat/shimx64.efi"

current_rhel : lookup "0001" info.entries ≡ some rhel
unfolding program
current_rhel = refl

item_rhel : get_item "0001" info.entries ≡ ok rhel
unfolding program
item_rhel = refl

rhel_path : get_canonical_path machine rhel ≡ ok (some shim)
unfolding program
rhel_path = refl

rhel_first : first_path machine info ≡ ok (some shim)
unfolding program
rhel_first = refl

shim_given : truthy shim ≡ true
unfolding program
shim_given = refl

replace_efi_boot_entry-removes_first_test :
    replace_efi_boot_entry machine 0 ≡ remove_entry machine "0001" 5
replace_efi_boot_entry-removes_first_test =
    replace_efi_boot_entry-removes_first machine info rhel shim 0 1 5 load_info add_rhel
      current_rhel item_rhel rhel_path shim_given rhel_first

remove_orig_boot_entry-IsSafe_example :
    ((remove_orig_boot_entry machine info info 5).1 ≡ 5)
    ⊎ ((entry : EfiBootLoader) × IsRemovable machine info info 5 entry
        × (remove_orig_boot_entry machine info info 5 ≡ remove_entry machine entry.boot_number 5))
remove_orig_boot_entry-IsSafe_example = remove_orig_boot_entry-IsSafe machine info info 5
