-- ===== src/Toolopts/Precedence.antt =====
-- Which source an option comes from (convert2rhel/toolopts/__init__.py).
use convert2rhel.Prelude.{
  Bool, true, false, not, ◌&&◌, ◌||◌, [], ◌≡◌, refl, string_eq, ok, Gives, bind-Gives, then-Gives,
  Gives-ok, critical_error, require, arith,
}
use convert2rhel.Toolopts.Values.{truth, Attributes, is_set}
use convert2rhel.Toolopts.Server.{Urls}
use convert2rhel.Toolopts.{
  set_all, drop_file_key, check_incomplete_rollback, handle_config_conflict, handle_missing_options,
  handle_rhsm_parts, initialize,
}
use convert2rhel.Toolopts.Laws.{Distinct, prefer_cli-preferred}
use convert2rhel.Toolopts.Credentials.{
  Credentials, Has, gives_way, resolved, firsts, plain, set_both-Has, rhsm_parts-Has, settled,
  settled-Has, cornered, cornered-Has,
}

drop_file_key-cornered :
    (f c : Credentials) (file cli t : Attributes)
    → Has f file
    → Has c cli
    → drop_file_key file cli t ≡ ok (cornered (gives_way f c) t)
unfolding drop_file_key is_set
drop_file_key-cornered f c file cli t hf hc = ground (arith, hf.activation_key, hc.password)

conflict-Has :
    (f c : Credentials) (file cli t : Attributes)
    → Has f file
    → Has c cli
    → Has (firsts f c) t
    → Gives (Has (resolved f c)) (handle_config_conflict file cli t)
unfolding handle_config_conflict
conflict-Has f c file cli t hf hc ht =
    let t' = settled f c t ht in
    rw (prefer_cli-preferred "username" file cli t f.username c.username hf.username hc.username) (
      rw (prefer_cli-preferred "org" file cli _ f.org c.org hf.org hc.org) (
        rw
          (prefer_cli-preferred "activation_key" file cli _ f.activation_key c.activation_key
            hf.activation_key hc.activation_key)
          (rw
            (prefer_cli-preferred "password" file cli _ f.password c.password hf.password
              hc.password)
            (rw (drop_file_key-cornered f c file cli t' hf hc) (
              bind-Gives (Has (resolved f c))
                (check_incomplete_rollback file (cornered (gives_way f c) t')) _
                (λ u. cornered-Has (gives_way f c) (plain f c) t' (settled-Has f c t ht)))))))

-- Exactly one of two
abbrev differ : Bool → Bool → Bool
differ a b = (a && not b) || (not a && b)

handle_missing_options-eq :
    (v : Credentials) (t : Attributes)
    → Has v t
    → handle_missing_options t
      ≡ require (not (differ (truth v.org) (truth v.activation_key))) critical_error
unfolding handle_missing_options is_set
handle_missing_options-eq v t h = ground (arith, h.org, h.activation_key)

require-differ-Gives : (a b : Bool) → Gives (λ u. a ≡ b) (require (not (differ a b)) critical_error)
require-differ-Gives true true = refl
require-differ-Gives true false = tt
require-differ-Gives false true = tt
require-differ-Gives false false = refl

missing-Gives :
    (v : Credentials) (t : Attributes)
    → Has v t
    → Gives (λ u. truth v.org ≡ truth v.activation_key) (handle_missing_options t)
missing-Gives v t h =
    rw (handle_missing_options-eq v t h)
      (require-differ-Gives (truth v.org) (truth v.activation_key))

-- What holds of the attributes in the end.
abbrev pub Settled : Credentials → Attributes → Type 0
Settled v t = Has v t × (truth v.org ≡ truth v.activation_key)

initialize-Gives :
    (urls : Urls) (f c : Credentials) (file cli : Attributes)
    → Distinct file
    → Distinct cli
    → Has f file
    → Has c cli
    → Gives (Settled (resolved f c)) (initialize urls file cli)
unfolding initialize
initialize-Gives urls f c file cli df dc hf hc =
    let v = resolved f c in
    let t0 = set_all cli (set_all file []) in
    let parts = rhsm_parts-Has urls (firsts f c) t0 (set_both-Has f c file cli df dc hf hc) in
    then-Gives (Has (firsts f c)) (Settled v) (handle_rhsm_parts urls t0) _ parts (λ t h.
      then-Gives (Has v) (Settled v) (handle_config_conflict file cli t) _
        (conflict-Has f c file cli t hf hc h)
        (λ u k.
          then-Gives (λ done. truth v.org ≡ truth v.activation_key) (Settled v)
            (handle_missing_options u) _ (missing-Gives v u k) (λ done e. (k, e))))

-- Where both sources have the credentials and the options are initialized, each credential is that
-- of the command line if it has one, and otherwise that of the file; but where the file has an
-- activation key and the command line a password, there is neither an activation key nor an
-- organization. An organization is there exactly if an activation key is.
pub initialize-Settled :
    (urls : Urls) (f c : Credentials) (file cli : Attributes) {t : Attributes}
    → Distinct file
    → Distinct cli
    → Has f file
    → Has c cli
    → initialize urls file cli ≡ ok t
    → Has (resolved f c) t × (truth (resolved f c).org ≡ truth (resolved f c).activation_key)
initialize-Settled urls f c file cli df dc hf hc e =
    Gives-ok (Settled (resolved f c)) (initialize urls file cli)
      (initialize-Gives urls f c file cli df dc hf hc) e
