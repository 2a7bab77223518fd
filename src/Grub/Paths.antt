-- ===== src/Grub/Paths.antt =====
-- The texts of convert2rhel/grub.py: paths of UEFI, and what is cut out of the output of commands.
use convert2rhel.Prelude.{ℕ, zero, suc, String, ◌<>◌, Option, none, some, if◌then◌else◌}
use convert2rhel.Prelude.Text.{Char, same_char, starts_with, count}

abbrev pub efi_mountpoint : String
efi_mountpoint = "/boot/efi/"

abbrev pub rhel_efidir_canonical_path : String
rhel_efidir_canonical_path = "/boot/efi/EFI/redhat/"

-- `text.replace(old, new)`, of characters
unfoldable pub replace_char : Char → Char → String → String
replace_char old new String.[] = ""
replace_char old new (String.◌∷◌ c s) =
    let rest = replace_char old new s in
    if same_char c old then String.◌∷◌ new rest else String.◌∷◌ c rest

-- `text.replace(old, "")`, of a character
unfoldable pub without_char : Char → String → String
without_char old String.[] = ""
without_char old (String.◌∷◌ c s) =
    let rest = without_char old s in if same_char c old then rest else String.◌∷◌ c rest

-- `text.lstrip(c)`
unfoldable pub strip_left : Char → String → String
strip_left d String.[] = ""
strip_left d (String.◌∷◌ c s) =
    let rest = strip_left d s in if same_char c d then rest else String.◌∷◌ c s

abbrev one_less : ℕ → ℕ
one_less zero = zero
one_less (suc n) = n

-- `text.replace(old, "")`, with the characters of `old` that are still to be passed over
unfoldable pub without_text : String → ℕ → String → String
without_text old n String.[] = ""
without_text old (suc n) (String.◌∷◌ c s) = without_text old n s
without_text old zero (String.◌∷◌ c s) =
    let behind = without_text old (one_less (count old)) s in
    let rest = without_text old 0 s in
    if starts_with old (String.◌∷◌ c s) then behind else String.◌∷◌ c rest

unfoldable pub drop_chars : ℕ → String → String
drop_chars zero s = s
drop_chars (suc n) String.[] = ""
drop_chars (suc n) (String.◌∷◌ c s) = drop_chars n s

-- What stands behind the last `mark`
unfoldable pub behind_last : String → String → Option String
behind_last mark String.[] = none
behind_last mark (String.◌∷◌ c s) = elim (behind_last mark s) [
  | some t ↦ some t
  | none ↦
      if starts_with mark (String.◌∷◌ c s)
      then some (drop_chars (count mark) (String.◌∷◌ c s))
      else none
]

abbrev whole : String → Option String → String
whole s none = s
whole s (some t) = t

-- `output.split("PART_ENTRY_NUMBER=")[-1].replace('"', "")`
unfoldable pub partition_text : String → String
partition_text output = without_char "\"" (whole output (behind_last "PART_ENTRY_NUMBER=" output))

-- `_efi_path_to_canonical`
unfoldable pub efi_path_to_canonical : String → String
efi_path_to_canonical efi_path = efi_mountpoint <> strip_left "/" (replace_char "\\" "/" efi_path)

-- `canonical_path_to_efi_format`, without `/boot/efi`
unfoldable pub canonical_path_to_efi_format : String → String
canonical_path_to_efi_format path = replace_char "/" "\\" (without_text "/boot/efi" 0 path)
