-- ===== src/Grub/Entries.antt =====
-- The entries of the boot loader (convert2rhel/grub.py, EFIBootLoader and EFIBootInfo).
use convert2rhel.Prelude.{
  String, Bool, true, false, not, ◌&&◌, Option, none, some, List, [], ◌∷◌, has_items, ◌==◌, nat_eq,
  string_eq, Result, ok, raise, attribute_error, index_error, if◌then◌else◌,
}
use convert2rhel.Prelude.Text.{has_char, has_text, starts_with, split_all}
use convert2rhel.Prelude.Dict.{Dict, insert}
use convert2rhel.Prelude.Calls.{Call, ◌>>=◌, computed, pure, throw}
use convert2rhel.Grub.Paths.{efi_path_to_canonical}
use convert2rhel.Grub.Devices.{BootMachine, bootloader_error, efi_not_used, is_efi, asks, output_or}

pub record EfiBootLoader : Type 0 where
  pub boot_number : String
  pub label : String
  pub active : Bool
  pub efi_bin_source : String

pub record EfiBootInfo : Type 0 where
  pub current_bootnum : String
  pub boot_order : List String
  pub entries : Dict String EfiBootLoader

abbrev same_flag : Bool → Bool → Bool
same_flag true b = b
same_flag false b = not b

-- `__eq__`
unfoldable pub same_entry : EfiBootLoader → EfiBootLoader → Bool
same_entry e f =
    e.boot_number == f.boot_number
    && (e.label == f.label
        && (same_flag e.active f.active && (e.efi_bin_source == f.efi_bin_source)))

abbrev pub is_referring_to_file : EfiBootLoader → Bool
is_referring_to_file e = has_text "/File(\\" e.efi_bin_source

abbrev pub second_or_raise : List String → Result String
second_or_raise (x ∷ y ∷ rest) = ok y
second_or_raise xs = raise (index_error "list index out of range")

-- The value behind the mark, in the first line that begins with it
unfoldable pub marked_value : String → List String → Result String
marked_value mark [] = raise bootloader_error
marked_value mark (line ∷ lines) =
    let rest = marked_value mark lines in
    if starts_with mark line then second_or_raise (split_all ":" line) else rest

module _ {W : Type 0} (machine : BootMachine W) where
  -- `match.groups` of what the search has found
  abbrev found_path : Option String → Result (Option String)
  found_path none = raise attribute_error
  found_path (some path) = ok (some (efi_path_to_canonical path))

  unfoldable pub get_canonical_path : EfiBootLoader → Result (Option String)
  get_canonical_path e =
      if not (is_referring_to_file e)
      then ok none
      else found_path (machine.search_path e.efi_bin_source)

  abbrev add_entry :
      Option (String × String × String × String)
      → Dict String EfiBootLoader
      → Dict String EfiBootLoader
  add_entry none entries = entries
  add_entry (some (bootnum, active, label, source)) entries =
      insert bootnum
        (record {
          boot_number = bootnum;
          label = label;
          active = has_char "*" active;
          efi_bin_source = source;
        })
        entries

  -- `_parse_efi_boot_entries`
  unfoldable pub parse_efi_boot_entries :
      List String → Dict String EfiBootLoader → Dict String EfiBootLoader
  parse_efi_boot_entries [] entries = entries
  parse_efi_boot_entries (line ∷ lines) entries =
      parse_efi_boot_entries lines (add_entry (machine.match_entry line) entries)

  abbrev some_entries : Dict String EfiBootLoader → Result (Dict String EfiBootLoader)
  some_entries entries = if has_items entries then ok entries else raise bootloader_error

  -- The information in the output of efibootmgr
  unfoldable pub parse_info : String → Call W EfiBootInfo
  parse_info output = do
    entries ← computed (some_entries (parse_efi_boot_entries (machine.splitlines output) []))
    current ← computed (marked_value "BootCurrent:" (machine.splitlines output))
    order ← computed (marked_value "BootOrder:" (machine.splitlines output))
    pure (record {
      current_bootnum = machine.strip current;
      boot_order = split_all "," (machine.strip order);
      entries = entries;
    })

  -- `EFIBootInfo()`
  unfoldable pub efi_boot_info : Call W EfiBootInfo
  efi_boot_info = do
    efi ← asks machine (is_efi machine)
    if efi
        then (do
          answer ← machine.run_subprocess ("/usr/sbin/efibootmgr" ∷ "-v" ∷ [])
          output ← computed (output_or machine bootloader_error true answer)
          parse_info output)
        else throw efi_not_used
