-- ===== src/Toolopts/Server.antt =====
-- The parts of the --serverurl option (convert2rhel/utils/subscription.py). The calls of re and
-- urllib are parameters.
use convert2rhel.Prelude.{
  ℕ, zero, suc, String, ◌<>◌, Bool, not, ◌&&◌, Option, none, some, [], ◌∷◌, truthy, given, contains,
  string_eq, Result, ok, raise, value_error, type_error, critical_error, ◌>>=◌, ◌>>◌, require,
  if◌then◌else◌,
}
use convert2rhel.Toolopts.Values.{
  Value, nothing, text, truth, Attributes, attribute, both, either, is_set,
}

-- What `urlsplit` gives. Its attribute `port` is computed when it is read, and may raise.
pub record UrlParts : Type 0 where
  pub scheme : String
  pub hostname : Option String
  pub port : Result (Option ℕ)
  pub path : String

pub record Urls : Type 0 where
  -- `re.match("https?://[^/]+", serverurl)`
  pub has_scheme : String → Bool
  -- `re.match("^[^:]+:/.+", serverurl)`
  pub is_malformed : String → Bool
  -- `urllib.parse.urlsplit(serverurl, allow_fragments=False)`
  pub urlsplit : String → Result UrlParts
  -- `str(port)`
  pub str : ℕ → String

-- `_should_subscribe`
unfoldable pub should_subscribe : Attributes → Result Bool
should_subscribe opts = do
  can_register ←
      either (both (is_set "username" opts) (is_set "password" opts))
        (both (is_set "activation_key" opts) (is_set "org" opts))
  no_rhsm ← both (ok can_register) (is_set "no_rhsm" opts)
  ok (can_register && not no_rhsm)

-- `_validate_serverurl_parsing`
unfoldable pub validate_serverurl_parsing : UrlParts → Result UrlParts
validate_serverurl_parsing parts =
    require (contains ("https" ∷ "http" ∷ []) parts.scheme) value_error
    >> (require (given parts.hostname) value_error >> ok parts)

-- `except ValueError`
abbrev pub as_critical : Result UrlParts → Result UrlParts
as_critical (raise value_error) = raise critical_error
as_critical r = r

abbrev pub text_or_none : Option String → Value
text_or_none none = nothing
text_or_none (some s) = text s

abbrev pub rhsm_parts : Value → Value → Value → Attributes
rhsm_parts hostname port prefix =
    ("rhsm_hostname", hostname) ∷ ("rhsm_port", port) ∷ ("rhsm_prefix", prefix) ∷ []

module _ (urls : Urls) where
  -- `_parse_subscription_manager_serverurl`
  unfoldable pub parse_serverurl : String → Result UrlParts
  parse_serverurl url =
      if urls.has_scheme url
      then urls.urlsplit url
      else if urls.is_malformed url
      then raise value_error
      else urls.urlsplit ("https://" <> url)

  -- `str(port)` of a port that is true, or None.
  abbrev pub port_value : Option ℕ → Value
  port_value none = nothing
  port_value (some zero) = nothing
  port_value (some (suc n)) = text (urls.str (suc n))

  -- The last branch of `setup_rhsm_parts`
  unfoldable pub parts_of_url : String → Result Attributes
  parts_of_url url = do
    parts ← as_critical (parse_serverurl url >>= validate_serverurl_parsing)
    port ← parts.port
    ok (
        rhsm_parts (text_or_none parts.hostname) (port_value port)
          (if truthy parts.path then text parts.path else nothing))

  -- `re` raises on what is no text.
  abbrev pub parts_of_value : Value → Result Attributes
  parts_of_value (text url) = parts_of_url url
  parts_of_value _ = raise type_error

  -- `setup_rhsm_parts`
  unfoldable pub setup_rhsm_parts : Attributes → Result Attributes
  setup_rhsm_parts opts = do
    serverurl ← attribute "serverurl" opts
    ignored ← either (ok (not (truth serverurl))) (is_set "no_rhsm" opts)
    subscribe ← both (ok (not ignored)) (should_subscribe opts)
    if subscribe then parts_of_value serverurl else ok (rhsm_parts nothing nothing nothing)
