-- ===== src/Toolopts/Credentials.antt =====
-- The credentials behind each step of ToolOpts (convert2rhel/toolopts/__init__.py).
use convert2rhel.Prelude.{
  String, Bool, true, false, not, ◌&&◌, some, [], ◌≡◌, refl, ◌∙◌, string_eq, inl, inr, Result-cases,
  Gives, Gives-ok, if◌then◌else◌, arith,
}
use convert2rhel.Prelude.Dict.{lookup, insert, lookup-insert}
use convert2rhel.Toolopts.Values.{Value, nothing, truth, Attributes}
use convert2rhel.Toolopts.Server.{Urls, setup_rhsm_parts}
use convert2rhel.Toolopts.{set_all, handle_rhsm_parts}
use convert2rhel.Toolopts.Laws.{
  Distinct, lookup-set_all, preferred, lookup-preferred, lookup-preferred_other,
  setup_rhsm_parts-IsParts, IsParts, lookup-set_all_parts,
}

-- A source with the credentials: what it has for each of them.
pub record Credentials : Type 0 where
  pub username : Value
  pub password : Value
  pub org : Value
  pub activation_key : Value

pub record Has (v : Credentials) (d : Attributes) : Type 0 where
  pub username : lookup "username" d ≡ some v.username
  pub password : lookup "password" d ≡ some v.password
  pub org : lookup "org" d ≡ some v.org
  pub activation_key : lookup "activation_key" d ≡ some v.activation_key

-- The command line comes first.
abbrev pub chosen : Value → Value → Value
chosen from_file from_cli = if truth from_cli then from_cli else from_file

-- An activation key in the file gives way to a password of the command line.
abbrev pub gives_way : Credentials → Credentials → Bool
gives_way f c = truth f.activation_key && truth c.password

abbrev pub resolved : Credentials → Credentials → Credentials
resolved f c = record {
  username = chosen f.username c.username;
  password = chosen f.password c.password;
  org = if gives_way f c then nothing else chosen f.org c.org;
  activation_key = if gives_way f c then nothing else chosen f.activation_key c.activation_key;
}

-- What `set_opts` makes of the two sources.
abbrev pub first : Value → Value → Value
first v w = if truth w && not (truth v) then w else v

abbrev pub firsts : Credentials → Credentials → Credentials
firsts f c = record {
  username = first f.username c.username;
  password = first f.password c.password;
  org = first f.org c.org;
  activation_key = first f.activation_key c.activation_key;
}

lookup-set_both :
    (key : String) (file cli : Attributes) (v w : Value)
    → Distinct file
    → Distinct cli
    → lookup key file ≡ some v
    → lookup key cli ≡ some w
    → lookup key (set_all cli (set_all file [])) ≡ some (first v w)
unfolding lookup
lookup-set_both key file cli v w df dc f c =
    ground (arith, lookup-set_all key cli (set_all file []) dc, lookup-set_all key file [] df, f, c)

pub set_both-Has :
    (f c : Credentials) (file cli : Attributes)
    → Distinct file
    → Distinct cli
    → Has f file
    → Has c cli
    → Has (firsts f c) (set_all cli (set_all file []))
set_both-Has f c file cli df dc hf hc = record {
  username = lookup-set_both _ file cli _ _ df dc hf.username hc.username;
  password = lookup-set_both _ file cli _ _ df dc hf.password hc.password;
  org = lookup-set_both _ file cli _ _ df dc hf.org hc.org;
  activation_key = lookup-set_both _ file cli _ _ df dc hf.activation_key hc.activation_key;
}

set_all_parts-Has :
    (v : Credentials) (parts t : Attributes) → IsParts parts → Has v t → Has v (set_all parts t)
unfolding string_eq
set_all_parts-Has v parts t p h = record {
  username = lookup-set_all_parts "username" parts t p refl ∙ h.username;
  password = lookup-set_all_parts "password" parts t p refl ∙ h.password;
  org = lookup-set_all_parts "org" parts t p refl ∙ h.org;
  activation_key = lookup-set_all_parts "activation_key" parts t p refl ∙ h.activation_key;
}

pub rhsm_parts-Has :
    (urls : Urls) (v : Credentials) (t : Attributes)
    → Has v t
    → Gives (Has v) (handle_rhsm_parts urls t)
unfolding handle_rhsm_parts
rhsm_parts-Has urls v t h =
    let parts = setup_rhsm_parts-IsParts urls t in
    elim (Result-cases (setup_rhsm_parts urls t)) [
      | inl (p, e) ↦
          rw e (set_all_parts-Has v p t (Gives-ok IsParts (setup_rhsm_parts urls t) parts e) h)
      | inr (x, e) ↦ rw e tt
    ]

-- Without the corner case.
abbrev pub plain : Credentials → Credentials → Credentials
plain f c = record {
  username = chosen f.username c.username;
  password = chosen f.password c.password;
  org = chosen f.org c.org;
  activation_key = chosen f.activation_key c.activation_key;
}

preferred-settles :
    (key : String) (v w : Value) (t : Attributes)
    → lookup key t ≡ some (first v w)
    → lookup key (preferred key v w t) ≡ some (chosen v w)
preferred-settles key v w t e = ground (arith, lookup-preferred key v w t, e)

module _ (f c : Credentials) (t : Attributes) (h : Has (firsts f c) t) where
  abbrev by_username : Attributes
  by_username = preferred "username" f.username c.username t

  abbrev by_org : Attributes
  by_org = preferred "org" f.org c.org by_username

  abbrev by_key : Attributes
  by_key = preferred "activation_key" f.activation_key c.activation_key by_org

  -- The attributes behind the four conflicts
  abbrev pub settled : Attributes
  settled = preferred "password" f.password c.password by_key

  pub settled-Has : Has (plain f c) settled
  unfolding string_eq
  settled-Has = record {
    username =
        lookup-preferred_other "username" "password" f.password c.password by_key refl
        ∙ (lookup-preferred_other "username" "activation_key" f.activation_key c.activation_key
              by_org refl
            ∙ (lookup-preferred_other "username" "org" f.org c.org by_username refl
                ∙ preferred-settles "username" f.username c.username t h.username));
    password = preferred-settles "password" f.password c.password by_key (
        lookup-preferred_other "password" "activation_key" f.activation_key c.activation_key by_org
          refl
        ∙ (lookup-preferred_other "password" "org" f.org c.org by_username refl
            ∙ (lookup-preferred_other "password" "username" f.username c.username t refl
                ∙ h.password)));
    org =
        lookup-preferred_other "org" "password" f.password c.password by_key refl
        ∙ (lookup-preferred_other "org" "activation_key" f.activation_key c.activation_key by_org
              refl
            ∙ preferred-settles "org" f.org c.org by_username
                (lookup-preferred_other "org" "username" f.username c.username t refl ∙ h.org));
    activation_key =
        lookup-preferred_other "activation_key" "password" f.password c.password by_key refl
        ∙ preferred-settles "activation_key" f.activation_key c.activation_key by_org (
            lookup-preferred_other "activation_key" "org" f.org c.org by_username refl
            ∙ (lookup-preferred_other "activation_key" "username" f.username c.username t refl
                ∙ h.activation_key));
  }

-- The corner case
abbrev pub cornered : Bool → Attributes → Attributes
cornered b t = if b then insert "org" nothing (insert "activation_key" nothing t) else t

abbrev pub cornered_credentials : Bool → Credentials → Credentials
cornered_credentials b v = record v {
  org = if b then nothing else v.org;
  activation_key = if b then nothing else v.activation_key;
}

pub cornered-Has :
    (b : Bool) (v : Credentials) (t : Attributes)
    → Has v t
    → Has (cornered_credentials b v) (cornered b t)
unfolding string_eq
cornered-Has false v t h = record {
  username = h.username;
  password = h.password;
  org = h.org;
  activation_key = h.activation_key;
}
cornered-Has true v t h =
    let without = insert "activation_key" nothing t in
    record {
      username =
          lookup-insert "username" "org" nothing without
          ∙ (lookup-insert "username" "activation_key" nothing t ∙ h.username);
      password =
          lookup-insert "password" "org" nothing without
          ∙ (lookup-insert "password" "activation_key" nothing t ∙ h.password);
      org = lookup-insert "org" "org" nothing without;
      activation_key =
          lookup-insert "activation_key" "org" nothing without
          ∙ lookup-insert "activation_key" "activation_key" nothing t;
    }
