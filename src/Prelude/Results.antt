-- ===== src/Prelude/Results.antt =====
-- Exceptions, and the result of code that may raise one.
use Prim.Native.String.{String}
use mathlib.Core.Bool.{Bool, true, false}
use mathlib.Core.Path.{◌≡◌, refl, subst}
use mathlib.Core.Logic.{◌⊎◌, inl, inr}
use mathlib.Core.List.{List}

-- The exceptions that the modelled code raises or tells apart. `other` stands for the rest.
pub data Exn : Type 0 where
  key_error type_error attribute_error stop_iteration not_implemented : Exn
  index_error : String → Exn
  action_error invalid_message : Exn
  dependency_error : (unresolved : List String) → Exn
  critical_error inhibitors_found analyze_exit : Exn
  application_locked os_error value_error : Exn
  system_exit keyboard_interrupt : Exn
  -- The exceptions of convert2rhel/subscription.py, and a DBusException with its name
  unregister_error removal_error refresh_error stop_rhsm_error attachment_error : Exn
  dbus_error : (name : String) → Exn
  other : String → Exn

-- `except (Exception, SystemExit)` catches everything but an interrupt by the user.
abbrev pub is_caught : Exn → Bool
is_caught keyboard_interrupt = false
is_caught _ = true

-- `except Exception` lets pass what ends the program.
abbrev pub is_exception : Exn → Bool
is_exception keyboard_interrupt = false
is_exception system_exit = false
is_exception _ = true

-- How a call ends: with a value, or by raising.
pub data Result {ℓ} (V : Type ℓ) : Type ℓ where
  raise : Exn → Result V
  ok : V → Result V

-- `if not test: raise e`
abbrev pub require : Bool → Exn → Result (Unit {0})
require false e = raise e
require true e = ok tt

module _ {ℓ κ} {V : Type ℓ} {U : Type κ} where
  infixl 5 ◌>>=◌
  -- What follows a call is left out where the call raises.
  abbrev pub ◌>>=◌ : Result V → (V → Result U) → Result U
  raise problem >>= next = raise problem
  ok value >>= next = next value

  pub bind-eq-ok :
      (call : Result V) (next : V → Result U) {u : U}
      → (call >>= next) ≡ ok u
      → (v : V) × (call ≡ ok v) × (next v ≡ ok u)
  bind-eq-ok (raise problem) next eq = cc
  bind-eq-ok (ok value) next eq = (value, refl, eq)

infixl 5 ◌>>◌
abbrev pub ◌>>◌ {ℓ} : {U : Type ℓ} → Result (Unit {0}) → Result U → Result U
first >> rest = first >>= λ done. rest

pub Result-cases {ℓ} :
    {A : Type ℓ} (r : Result A) → ((a : A) × (r ≡ ok a)) ⊎ ((e : Exn) × (r ≡ raise e))
Result-cases (ok a) = inl (a, refl)
Result-cases (raise e) = inr (e, refl)

-- Where the call returns, its value is as described.
abbrev pub Gives {ℓ κ} : {A : Type ℓ} → (A → Type κ) → Result A → Type κ
Gives P (raise e) = Unit
Gives P (ok a) = P a

pub bind-Gives {ℓ κ μ} :
    {A : Type ℓ} {B : Type κ} (P : B → Type μ) (r : Result A) (next : A → Result B)
    → ((a : A) → Gives P (next a))
    → Gives P (r >>= next)
bind-Gives P (raise e) next h = tt
bind-Gives P (ok a) next h = h a

pub Gives-ok {ℓ κ} :
    {A : Type ℓ} (P : A → Type κ) (r : Result A) {a : A} → Gives P r → r ≡ ok a → P a
Gives-ok P r g e = subst (Gives P) e g

pub then-Gives {ℓ κ μ ν} :
    {A : Type ℓ} {B : Type κ} (P : A → Type ν) (Q : B → Type μ) (r : Result A) (next : A → Result B)
    → Gives P r
    → ((a : A) → P a → Gives Q (next a))
    → Gives Q (r >>= next)
then-Gives P Q (raise e) next g h = tt
then-Gives P Q (ok a) next g h = h a g

pub self-Gives {ℓ} : {A : Type ℓ} (r : Result A) → Gives (λ a. r ≡ ok a) r
self-Gives (raise e) = tt
self-Gives (ok a) = refl

pub map-Gives {ℓ κ μ} :
    {A : Type ℓ} (P : A → Type κ) (Q : A → Type μ) (r : Result A)
    → ((a : A) → P a → Q a)
    → Gives P r
    → Gives Q r
map-Gives P Q (raise e) f g = tt
map-Gives P Q (ok a) f g = f a g

pub require-Gives : (b : Bool) (e : Exn) → Gives (λ u. b ≡ true) (require b e)
require-Gives true e = refl
require-Gives false e = tt
