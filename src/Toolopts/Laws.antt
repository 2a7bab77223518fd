-- ===== src/Toolopts/Laws.antt =====
-- What the attributes hold behind the steps of ToolOpts (convert2rhel/toolopts/__init__.py).
use convert2rhel.Prelude.{
  String, true, false, not, ◌&&◌, Option, none, some, [], ◌∷◌, ◌≡◌, refl, ◌==◌, string_eq, ok,
  Gives, bind-Gives, contains, ◌>>=◌, if◌then◌else◌, arith,
}
use convert2rhel.Prelude.Dict.{lookup, insert, lookup-insert}
use convert2rhel.Toolopts.Values.{
  Value, nothing, flag, text, texts, truth, Attributes, attribute, both, either, is_set,
}
use convert2rhel.Toolopts.Server.{
  Urls, setup_rhsm_parts, parts_of_url, as_critical, parse_serverurl, should_subscribe,
  validate_serverurl_parsing, parts_of_value, rhsm_parts,
}
use convert2rhel.Toolopts.{set_opts, set_all, prefer_cli}

-- No key twice, as in every dict.
abbrev pub Distinct : Attributes → Type 0
Distinct [] = Unit
Distinct ((key, value) ∷ d) = (lookup key d ≡ none) × Distinct d

-- The first of two values, unless only the second is true.
abbrev pub merged : Option Value → Option Value → Option Value
merged none later = later
merged (some v) none = some v
merged (some v) (some w) = if truth w && not (truth v) then some w else some v

lookup-set_opts :
    (j k : String) (v : Value) (t : Attributes)
    → lookup j (set_opts k v t) ≡ (if j == k then merged (lookup k t) (some v) else lookup j t)
unfolding set_opts
lookup-set_opts j k v t = ground (arith, lookup-insert j k v t)

pub lookup-set_all :
    (j : String) (opts t : Attributes)
    → Distinct opts
    → lookup j (set_all opts t) ≡ merged (lookup j t) (lookup j opts)
unfolding set_all lookup
lookup-set_all j [] t d = ground arith
lookup-set_all j ((k, v) ∷ opts) t d =
    ground (arith, lookup-set_all j opts (set_opts k v t) d.1, lookup-set_opts j k v t, d.0)

-- What `prefer_cli` makes of the attributes, where both sources have the key.
abbrev pub preferred : String → Value → Value → Attributes → Attributes
preferred key from_file from_cli t =
    if truth from_file && truth from_cli then insert key from_cli t else t

pub prefer_cli-preferred :
    (key : String) (file cli t : Attributes) (v w : Value)
    → lookup key file ≡ some v
    → lookup key cli ≡ some w
    → prefer_cli key file cli t ≡ ok (preferred key v w t)
unfolding prefer_cli is_set attribute
prefer_cli-preferred key file cli t v w f c = ground (arith, f, c)

pub lookup-preferred :
    (key : String) (v w : Value) (t : Attributes)
    → lookup key (preferred key v w t) ≡ (if truth v && truth w then some w else lookup key t)
lookup-preferred key v w t = ground (arith, lookup-insert key key w t)

pub lookup-preferred_other :
    (j key : String) (v w : Value) (t : Attributes)
    → (j == key) ≡ false
    → lookup j (preferred key v w t) ≡ lookup j t
lookup-preferred_other j key v w t n = ground (arith, lookup-insert j key w t, n)

-- The parts of the server have three keys, whatever the serverurl is.
unfoldable pub IsParts : Attributes → Type 0
IsParts parts = (h : Value) × (p : Value) × (x : Value) × (parts ≡ rhsm_parts h p x)

parts_of_url-IsParts : (urls : Urls) (url : String) → Gives IsParts (parts_of_url urls url)
unfolding parts_of_url IsParts
parts_of_url-IsParts urls url =
    bind-Gives IsParts (as_critical (parse_serverurl urls url >>= validate_serverurl_parsing)) _
      (λ parts. bind-Gives IsParts parts.port _ (λ port. (_, _, _, refl)))

parts_of_value-IsParts : (urls : Urls) (url : Value) → Gives IsParts (parts_of_value urls url)
parts_of_value-IsParts urls (text url) = parts_of_url-IsParts urls url
parts_of_value-IsParts urls nothing = tt
parts_of_value-IsParts urls (flag b) = tt
parts_of_value-IsParts urls (texts ss) = tt

pub setup_rhsm_parts-IsParts :
    (urls : Urls) (t : Attributes) → Gives IsParts (setup_rhsm_parts urls t)
unfolding setup_rhsm_parts IsParts
setup_rhsm_parts-IsParts urls t = bind-Gives IsParts (attribute "serverurl" t) _ (λ url.
    bind-Gives IsParts (either (ok (not (truth url))) (is_set "no_rhsm" t)) _ (λ ignored.
      bind-Gives IsParts (both (ok (not ignored)) (should_subscribe t)) _ (λ subscribe.
        elim subscribe
          as (λ b.
            Gives IsParts
              (if b then parts_of_value urls url else ok (rhsm_parts nothing nothing nothing))) [
                | true ↦ parts_of_value-IsParts urls url
                | false ↦ (_, _, _, refl)
              ])))

-- So they change no other option.
pub lookup-set_all_parts :
    (j : String) (parts t : Attributes)
    → IsParts parts
    → contains ("rhsm_hostname" ∷ "rhsm_port" ∷ "rhsm_prefix" ∷ []) j ≡ false
    → lookup j (set_all parts t) ≡ lookup j t
unfolding IsParts lookup string_eq
lookup-set_all_parts j parts t (h, p, x, e) n =
    rw e (ground (arith, lookup-set_all j (rhsm_parts h p x) t (refl, (refl, (refl, tt))), n))
