-- ===== src/Subscription/Arguments.antt =====
-- What a RegistrationCommand is made of and what it sends (convert2rhel/subscription.py).
use convert2rhel.Prelude.{
  ℕ, suc, String, Bool, true, false, ◌&&◌, Option, none, some, all, given, truthy, string_eq,
  Result, ok, raise, if◌then◌else◌, ◌≡◌, refl, ◌∙◌, arith,
}
use convert2rhel.Prelude.Calls.{Call, ◌>>=◌, computed, bind-ok}
use convert2rhel.Prelude.Costs.{Leaves, At, bind-Leaves, any-Leaves, At-ok}
use convert2rhel.Subscription.Commands.{Options}
use convert2rhel.Subscription.Command.{
  RegistrationCommand, new, by_key, by_user, answered, prompt_until, given_or_prompt,
  from_tool_opts, RegisterRequest, register, register_with_activation_keys, request_of,
}

abbrev pub is_text : Option String → Bool
is_text none = false
is_text (some s) = true

-- The arguments are texts, as the signatures `sssa{sv}a{sv}s` and `sasa{sv}a{sv}s` ask: none is
-- `None`. A user and a password, or an organization and a key, are not empty either.
abbrev pub is_typed : RegisterRequest → Bool
is_typed (register org username password connection) =
    is_text org && (given username && given password)
is_typed (register_with_activation_keys org keys connection) = given org && all given keys

new-is_typed : (c c' : RegistrationCommand) → new c ≡ ok c' → is_typed (request_of c') ≡ true
unfolding new request_of
new-is_typed c c' e = ground (arith, e)

abbrev IsTyped : {W : Type 0} → RegistrationCommand → W → Type 0
IsTyped c w = is_typed (request_of c) ≡ true

new-IsTyped : {W : Type 0} (c : RegistrationCommand) → Leaves {W = W} IsTyped (computed (new c))
new-IsTyped {W} c = record { post = λ w. go w (new c) refl }
  where
    go : (w : W) (r : Result RegistrationCommand) → new c ≡ r → At IsTyped (r, w)
    go w (ok c') e = new-is_typed c c' e
    go w (raise x) e = tt

module _ {W : Type 0} (prompt_user : String → Bool → Call W String) where
  if-Leaves :
      {A : Type 0} {P : A → W → Type 0} (b : Bool) {c d : Call W A}
      → Leaves P c
      → Leaves P d
      → Leaves P (if b then c else d)
  if-Leaves true h k = h
  if-Leaves false h k = k

  -- Behind both answers, and behind the first one
  abbrev with_password : Options → String → String → Call W RegistrationCommand
  with_password opts username password = computed (new (by_user opts username password))

  abbrev with_username : ℕ → Options → String → Call W RegistrationCommand
  with_username n opts username =
      given_or_prompt prompt_user n opts.password "Password: " true >>= with_password opts username

  with_username-IsTyped :
      (n : ℕ) (opts : Options) (username : String) → Leaves IsTyped (with_username n opts username)
  with_username-IsTyped n opts username =
      bind-Leaves (with_password opts username)
        (any-Leaves (given_or_prompt prompt_user n opts.password "Password: " true))
        (λ password w u. (new-IsTyped (by_user opts username password)).post w)

  gathered-IsTyped : (n : ℕ) (opts : Options) → Leaves IsTyped (from_tool_opts prompt_user n opts)
  unfolding from_tool_opts
  gathered-IsTyped n opts = if-Leaves (given opts.activation_key) (new-IsTyped (by_key opts)) (
      bind-Leaves (with_username n opts)
        (any-Leaves (given_or_prompt prompt_user n opts.username "Username: " false))
        (λ username w u. (with_username-IsTyped n opts username).post w))

  -- The request of a command that is made from the options, and from what the user answers, has no
  -- `None` among its arguments, and no credential in it is empty.
  pub from_tool_opts-is_typed :
      (n : ℕ) (opts : Options) (w w' : W) (c : RegistrationCommand)
      → from_tool_opts prompt_user n opts w ≡ (ok c, w')
      → is_typed (request_of c) ≡ true
  from_tool_opts-is_typed n opts w w' c e =
      At-ok IsTyped c w' (from_tool_opts prompt_user n opts w) ((gathered-IsTyped n opts).post w) e

  -- The user's answers to a question, up to the first that is not empty
  pub data Answers (question : String) (secret : Bool) : ℕ → W → String → W → Type 0 where
    now :
        {w w' : W} {s : String}
        → prompt_user question secret w ≡ (ok s, w')
        → truthy s ≡ true
        → Answers question secret 1 w s w'
    later :
        {n : ℕ} {w w1 w' : W} {s : String}
        → prompt_user question secret w ≡ (ok "", w1)
        → Answers question secret n w1 s w'
        → Answers question secret (suc n) w s w'

  -- A bound of as many questions as the user needs is enough: the loop ends with the first answer
  -- that is not empty.
  pub prompt_until-answered :
      (question : String) (secret : Bool) {n : ℕ} {w w' : W} {s : String}
      → Answers question secret n w s w'
      → prompt_until prompt_user n question secret w ≡ (ok s, w')
  unfolding prompt_until string_eq
  prompt_until-answered question secret (now {s} e t) =
      bind-ok (prompt_user question secret)
        (answered prompt_user (prompt_until prompt_user 0 question secret)) e
      ∙ ground (arith, t)
  prompt_until-answered question secret (later {n} e rest) =
      bind-ok (prompt_user question secret)
        (answered prompt_user (prompt_until prompt_user n question secret)) e
      ∙ prompt_until-answered question secret rest
