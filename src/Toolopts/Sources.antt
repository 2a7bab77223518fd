-- ===== src/Toolopts/Sources.antt =====
-- What is read of the configuration files and of the command line (convert2rhel/toolopts/config.py,
-- convert2rhel/cli.py).
use Prim.Native.Nat.{◌/◌, ◌%◌}
use convert2rhel.Prelude.Text.{Char, same_char}
use convert2rhel.Prelude.{
  ℕ, zero, suc, ltb, nat_eq, Bool, false, if◌then◌else◌, refl, String, true, List, [], ◌∷◌, reverse,
  ◌≡◌, string_eq, All, ok, Gives, bind-Gives, then-Gives, self-Gives, map-Gives, require-Gives,
  All-reverse, Gives-ok, critical_error, require, arith,
}
use convert2rhel.Toolopts.Values.{Attributes}
use convert2rhel.Toolopts.Config.{
  Files, octal_digit, oct_backwards, ends_with_00, only_owner, parse_paths, parse_headers,
  parse_options_from_config, options_from_config_files, existing_paths, config_file_mapping_options,
}
use convert2rhel.Toolopts.Commands.{subcommand_behind, subcommand_used, add_default_command}

octal_digit-zero : (n : ℕ) → same_char (octal_digit n) "0" ≡ true → n ≡ 0
unfolding octal_digit nat_eq
octal_digit-zero zero h = refl
octal_digit-zero (suc zero) h = absurd (ground (arith, h))
octal_digit-zero (suc (suc zero)) h = absurd (ground (arith, h))
octal_digit-zero (suc (suc (suc zero))) h = absurd (ground (arith, h))
octal_digit-zero (suc (suc (suc (suc zero)))) h = absurd (ground (arith, h))
octal_digit-zero (suc (suc (suc (suc (suc zero))))) h = absurd (ground (arith, h))
octal_digit-zero (suc (suc (suc (suc (suc (suc zero)))))) h = absurd (ground (arith, h))
octal_digit-zero (suc (suc (suc (suc (suc (suc (suc n))))))) h = absurd (ground (arith, h))

-- The second character of a number with one digit is no digit.
only_owner-digits :
    (b : Bool) (c d : Char) (rest : List Char)
    → ends_with_00 (c ∷ (if b then "o" ∷ "0" ∷ [] else d ∷ rest)) ≡ true
    → (same_char c "0" ≡ true) × (same_char d "0" ≡ true)
unfolding ends_with_00 nat_eq
only_owner-digits true c d rest h = absurd (ground (arith, h))
only_owner-digits false c d rest h = (ground (arith, h), ground (arith, h))

only_owner-bits : (mode : ℕ) → only_owner mode ≡ true → mode % 64 ≡ 0
unfolding only_owner oct_backwards
only_owner-bits mode h =
    let zeros =
      only_owner-digits (ltb mode 8) (octal_digit (mode % 8)) (octal_digit (mode / 8 % 8)) _ h in
    let last = octal_digit-zero (mode % 8) (zeros.0) in
    let before = octal_digit-zero (mode / 8 % 8) (zeros.1) in omega (arith, last, before)

module _ {C : Type 0} (files : Files C) where
  -- The file's mode has none of the six bits for the permissions of the group and of others.
  abbrev pub IsPrivate : String → Type 0
  IsPrivate path = (mode : ℕ) × ((files.st_mode path ≡ ok mode) × (mode % 64 ≡ 0))

  parse_paths-Gives :
      (paths : List String) (parser : C) (found : Attributes)
      → Gives (λ options. All IsPrivate paths) (parse_paths files paths parser found)
  unfolding parse_paths
  parse_paths-Gives [] parser found = tt
  parse_paths-Gives (path ∷ paths) parser found =
      let Goal : Attributes → Type 0 = λ options. All IsPrivate (path ∷ paths) in
      then-Gives (λ mode. files.st_mode path ≡ ok mode) Goal (files.st_mode path) _
        (self-Gives (files.st_mode path))
        (λ mode e.
          then-Gives (λ u. only_owner mode ≡ true) Goal (require (only_owner mode) critical_error) _
            (require-Gives (only_owner mode) critical_error)
            (λ u t. bind-Gives Goal (files.read path parser) _ (λ parser'.
              bind-Gives Goal (parse_headers files config_file_mapping_options parser' found) _
                (λ found'.
                  map-Gives (λ o. All IsPrivate paths) Goal (parse_paths files paths parser' found')
                    (λ o rest. ((mode, (e, only_owner-bits mode t)), rest))
                    (parse_paths-Gives paths parser' found')))))

  -- Where options are read from the configuration files, the mode of every file of them that exists
  -- gives no permission to the group or to others.
  pub options_from_config_files-IsPrivate :
      (paths : List String) {options : Attributes}
      → options_from_config_files files paths ≡ ok options
      → All IsPrivate (existing_paths files paths)
  unfolding options_from_config_files parse_options_from_config
  options_from_config_files-IsPrivate paths {options} e =
      let found = existing_paths files paths in
      let parsed : parse_paths files (reverse found) files.new_parser [] ≡ ok options =
        ground (arith, e) in
      All-reverse IsPrivate found (
        Gives-ok (λ o. All IsPrivate (reverse found))
          (parse_paths files (reverse found) files.new_parser [])
          (parse_paths-Gives (reverse found) files.new_parser []) parsed)

-- A second call changes nothing: the first one has seen to a subcommand.
pub add_default_command-add_default_command :
    (argv : List String) → add_default_command (add_default_command argv) ≡ add_default_command argv
unfolding add_default_command subcommand_used subcommand_behind string_eq
add_default_command-add_default_command argv = ground arith
