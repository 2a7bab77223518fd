-- ===== src/Grub/Devices.antt =====
-- The partitions and devices that boot the system (convert2rhel/grub.py).
use convert2rhel.Prelude.{
  ℕ, String, Bool, true, false, not, ◌&&◌, ◌||◌, Option, List, [], ◌∷◌, truthy, ltb, ◌==◌, nat_eq,
  string_eq, Exn, Result, ok, raise, other, os_error, if◌then◌else◌,
}
use convert2rhel.Prelude.Text.{has_text}
use convert2rhel.Prelude.Calls.{Call, ◌>>=◌, computed, pure, throw, catch}
use convert2rhel.Packages.Kernels.{last_or_raise}
use convert2rhel.Grub.Paths.{efi_mountpoint, partition_text}

pub record BootMachine (W : Type 0) : Type 0 where
  pub major : ℕ
  pub str : ℕ → String
  -- The output and the return code
  pub run_subprocess : List String → Call W (String × ℕ)
  -- `os.path.exists` and `os.path.ismount`
  pub exists : String → W → Bool
  pub is_mount : String → W → Bool
  -- `text.strip()`, `text.splitlines()` and `int(text)`
  pub strip : String → String
  pub splitlines : String → List String
  pub int : String → Result ℕ
  -- The number, the asterisk, the label and the source in a line of efibootmgr
  pub match_entry : String → Option (String × String × String × String)
  -- The path at the end of a source
  pub search_path : String → Option String

abbrev pub bootloader_error : Exn
bootloader_error = other "BootloaderError"

abbrev pub efi_not_used : Exn
efi_not_used = other "EFINotUsed"

abbrev pub unsupported_efi_configuration : Exn
unsupported_efi_configuration = other "UnsupportedEFIConfiguration"

module _ {W : Type 0} (machine : BootMachine W) where
  unfoldable pub is_efi : W → Bool
  is_efi w = machine.exists "/sys/firmware/efi" w

  abbrev pub asks : (W → Bool) → Call W Bool
  asks test w = (ok (test w), w)

  abbrev without_mokutil : Exn → Call W Bool
  without_mokutil os_error = pure false
  without_mokutil e = throw e

  abbrev is_enabled : String × ℕ → Bool
  is_enabled (stdout, code) = not (not (code == 0) || not (has_text "enabled" stdout))

  unfoldable pub is_secure_boot : Call W Bool
  is_secure_boot = do
    efi ← asks is_efi
    if efi
        then catch
            (machine.run_subprocess ("mokutil" ∷ "--sb-state" ∷ []) >>= λ answer.
              pure (is_enabled answer))
            without_mokutil
        else pure false

  -- The output of a command that has to end with 0
  abbrev pub output_or : Exn → Bool → String × ℕ → Result String
  output_or e may_be_empty (output, code) =
      if not (code == 0) || (not may_be_empty && not (truthy output)) then raise e else ok output

  unfoldable pub get_partition : String → Call W String
  get_partition directory = do
    answer ← machine.run_subprocess ("/usr/sbin/grub2-probe" ∷ "--target=device" ∷ directory ∷ [])
    output ← computed (output_or bootloader_error false answer)
    pure (machine.strip output)

  unfoldable pub get_boot_partition : Call W String
  get_boot_partition = get_partition "/boot"

  unfoldable pub get_efi_partition : Call W String
  get_efi_partition = do
    efi ← asks is_efi
    mounted ← asks (λ w. machine.exists efi_mountpoint w && machine.is_mount efi_mountpoint w)
    if efi
        then (if mounted then get_partition efi_mountpoint else throw unsupported_efi_configuration)
        else throw efi_not_used

  unfoldable pub get_blk_device : String → Call W String
  get_blk_device device = do
    answer ← machine.run_subprocess ("lsblk" ∷ "-spnlo" ∷ "name" ∷ device ∷ [])
    output ← computed (output_or bootloader_error true answer)
    line ← computed (last_or_raise (machine.splitlines (machine.strip output)))
    pure (machine.strip line)

  abbrev stripped_or : String × ℕ → Result String
  stripped_or (output, code) = output_or bootloader_error false (machine.strip output, code)

  unfoldable pub get_device_number : String → Call W ℕ
  get_device_number device = do
    answer ←
        machine.run_subprocess ("/usr/sbin/blkid" ∷ "-p" ∷ "-s" ∷ "PART_ENTRY_NUMBER" ∷ device ∷ [])
    output ← computed (stripped_or answer)
    computed (machine.int (partition_text output))

  unfoldable pub get_grub_device : Call W String
  get_grub_device = do
    efi ← asks is_efi
    partition ← if efi then get_efi_partition else get_boot_partition
    get_blk_device partition

  unfoldable pub get_grub_config_file : W → String
  get_grub_config_file w =
      if is_efi w && ltb machine.major 9
      then "/boot/efi/EFI/redhat/grub.cfg"
      else "/boot/grub2/grub.cfg"
