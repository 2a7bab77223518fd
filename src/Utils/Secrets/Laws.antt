-- ===== src/Utils/Secrets/Laws.antt =====
-- The parameters of the options for credentials behind hide_secrets (convert2rhel/utils/__init__.py).
use convert2rhel.Prelude.{
  String, ◌<>◌, Bool, true, false, ◌||◌, List, [], ◌∷◌, contains, all, ◌==◌, string_eq, nat_eq,
  if◌then◌else◌, ◌≡◌, refl, sym, arith, Bool-cases, inl, inr, All, All-mem, contains-mem,
}
use convert2rhel.Prelude.Text.{
  starts_with, starts_with-append, clash, clash-starts_with, append_assoc, has_char,
  has_char-append,
}
use convert2rhel.Utils.Secrets.{
  obfuscation_string, secret_options, hide_in_one, hide_args, hide_secrets,
}

-- The options of the command line whose parameters are credentials, by both of their names
-- (convert2rhel/cli.py, the group of subscription-manager options).
abbrev pub credential_options : List String
credential_options =
    "--username" ∷ "--password" ∷ "--activationkey" ∷ "--org" ∷ "-u" ∷ "-p" ∷ "-k" ∷ "-o" ∷ []

-- Two command lines that differ at most in their secrets.
pub data SameButSecrets : List String → List String → Type 0 where
  ended : SameButSecrets [] []
  -- An option at the end, without its parameter
  bare : (option : String) → SameButSecrets (option ∷ []) (option ∷ [])
  -- `--password SECRET`
  two :
      (option secret secret' : String) (args args' : List String)
      → contains credential_options option ≡ true
      → SameButSecrets args args'
      → SameButSecrets (option ∷ secret ∷ args) (option ∷ secret' ∷ args')
  -- `--password=SECRET`
  one :
      (option secret secret' : String) (args args' : List String)
      → contains credential_options option ≡ true
      → SameButSecrets args args'
      → SameButSecrets ((option <> ("=" <> secret)) ∷ args) ((option <> ("=" <> secret')) ∷ args')
  other :
      (arg : String) (args args' : List String)
      → contains credential_options arg ≡ false
      → SameButSecrets args args'
      → SameButSecrets (arg ∷ args) (arg ∷ args')

abbrev hidden : String → String
hidden option = option <> ("=" <> obfuscation_string)

-- The options of a list either are this one or differ from it before its end.
abbrev apart : String → List String → Bool
apart option options = all (λ o. o == option || clash (o <> "=") (option <> "=")) options

starts_with-option :
    (o option secret : String)
    → o ≡ option
    → starts_with (o <> "=") (option <> ("=" <> secret)) ≡ true
starts_with-option o option secret e =
    rw (e, sym (append_assoc option "=" secret)) (starts_with-append (option <> "=") secret)

clash-option :
    (o option secret : String)
    → clash (o <> "=") (option <> "=") ≡ true
    → starts_with (o <> "=") (option <> ("=" <> secret)) ≡ false
clash-option o option secret e =
    rw (sym (append_assoc option "=" secret))
      (clash-starts_with (o <> "=") (option <> "=") secret e)

hide_in_one-apart :
    (option secret : String) (options : List String)
    → apart option options ≡ true
    → hide_in_one options (option <> ("=" <> secret))
      ≡ (if contains options option then hidden option else option <> ("=" <> secret))
unfolding hide_in_one
hide_in_one-apart option secret [] h = refl
hide_in_one-apart option secret (o ∷ options) h = elim (Bool-cases (o == option)) [
  | inl e ↦
      let found : starts_with (o <> "=") (option <> ("=" <> secret)) ≡ true =
        starts_with-option o option secret (ground arith) in
      ground (arith, e, found, h, hide_in_one-apart option obfuscation_string options)
  | inr e ↦
      let lost : starts_with (o <> "=") (option <> ("=" <> secret)) ≡ false =
        clash-option o option secret (ground (arith, h, e)) in
      ground (arith, e, lost, h, hide_in_one-apart option secret options)
]

unfoldable IsApart : String → Type 0
IsApart option = (apart option secret_options ≡ true) × (has_char "=" option ≡ false)

secret_options-IsApart : All IsApart secret_options
unfolding IsApart clash has_char string_eq nat_eq
secret_options-IsApart = (
  (refl, refl),
  (
    (refl, refl),
    (
      (refl, refl),
      ((refl, refl), ((refl, refl), ((refl, refl), ((refl, refl), ((refl, refl), tt))))),
    ),
  ),
)

IsApart-prop : (option : String) → IsProp (IsApart option)
unfolding IsApart
IsApart-prop option = hlevel

option-IsApart : (option : String) → contains secret_options option ≡ true → IsApart option
option-IsApart option h =
    All-mem IsApart IsApart-prop secret_options option secret_options-IsApart
      (contains-mem secret_options option h)

hide_in_one-eq :
    (option secret : String)
    → contains secret_options option ≡ true
    → hide_in_one secret_options (option <> ("=" <> secret)) ≡ hidden option
unfolding IsApart
hide_in_one-eq option secret h =
    ground (arith, hide_in_one-apart option secret secret_options (option-IsApart option h).0, h)

equals_sign : (option secret : String) → has_char "=" (option <> ("=" <> secret)) ≡ true
unfolding has_char nat_eq
equals_sign option secret =
    ground (arith, has_char-append "=" option ("=" <> secret), has_char-append "=" "=" secret)

not_an_option :
    (option secret : String)
    → contains secret_options option ≡ true
    → contains secret_options (option <> ("=" <> secret)) ≡ false
unfolding IsApart
not_an_option option secret h =
    elim (Bool-cases (contains secret_options (option <> ("=" <> secret)))) [
      | inl e ↦
          let without = (option-IsApart (option <> ("=" <> secret)) e).1 in
          let there = equals_sign option secret in cc
      | inr e ↦ e
    ]

hide_args-hides :
    (args args' : List String)
    → SameButSecrets args args'
    → hide_args secret_options false args ≡ hide_args secret_options false args'
unfolding hide_args
hide_args-hides args args' ended = refl
hide_args-hides args args' (bare option) = refl
hide_args-hides args args' (two option v v' rest rest' h same) =
    ground (arith, h, hide_args-hides rest rest' same)
hide_args-hides args args' (one option v v' rest rest' h same) = ground (
  arith,
  not_an_option option v h,
  not_an_option option v' h,
  hide_in_one-eq option v h,
  hide_in_one-eq option v' h,
  hide_args-hides rest rest' same,
)
hide_args-hides args args' (other arg rest rest' h same) =
    ground (arith, h, hide_args-hides rest rest' same)

-- Two command lines that differ only in the parameters of --username, --password, --activationkey,
-- --org, -u, -p, -k and -o are logged alike, where each parameter is the argument behind its option
-- or is joined to it by an equals sign.
pub hide_secrets-hides :
    (args args' : List String) → SameButSecrets args args' → hide_secrets args ≡ hide_secrets args'
unfolding hide_secrets
hide_secrets-hides args args' same = hide_args-hides args args' same
