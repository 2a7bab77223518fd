-- ===== src/Backup/Methods.antt =====
-- Methods of a change that can be restored, by state passing: they read and set the object's
-- attributes and call the outside world (convert2rhel/backup/__init__.py, RestorableChange).
use convert2rhel.Prelude.{
  String, Option, none, some, List, [], ◌∷◌, Exn, Result, ok, raise, type_error,
}

-- A method with a value `A` of an object `O` in a world `W`. What was set stays where it raises.
abbrev pub Method : Type 0 → Type 0 → Type 0 → Type 0
Method O W A = O → W → Result A × O × W

module _ {O W A B : Type 0} where
  infixl 5 ◌>>=◌
  abbrev pub ◌>>=◌ : Method O W A → (A → Method O W B) → Method O W B
  (first >>= next) o w =
      let (r, o', w') = first o w in elim r [ ok a ↦ next a o' w' | raise e ↦ (raise e, o', w') ]

infixl 5 ◌>>◌
abbrev pub ◌>>◌ : {O W B : Type 0} → Method O W (Unit {0}) → Method O W B → Method O W B
first >> rest = first >>= λ u. rest

module _ {O W : Type 0} where
  abbrev pub pure : {A : Type 0} → A → Method O W A
  pure a o w = (ok a, o, w)

  abbrev pub throw : {A : Type 0} → Exn → Method O W A
  throw e o w = (raise e, o, w)

  -- `self.attribute`
  abbrev pub self : {A : Type 0} → (O → A) → Method O W A
  self get o w = (ok (get o), o, w)

  -- `self.attribute = ...`
  abbrev pub set : (O → O) → Method O W (Unit {0})
  set change o w = (ok tt, change o, w)

  -- A call of the outside world
  abbrev pub call : {A : Type 0} → (W → Result A × W) → Method O W A
  call f o w = let (r, w') = f w in (r, o, w')

  abbrev pub no_change : Method O W (Unit {0})
  no_change = pure tt

  -- `try: ... except ...`, where the handler says which exceptions it takes.
  abbrev pub catch : Method O W (Unit {0}) → (Exn → Method O W (Unit {0})) → Method O W (Unit {0})
  catch body handler o w =
      let (r, o', w') = body o w in elim r [ ok u ↦ (ok u, o', w') | raise e ↦ handler e o' w' ]

-- The arguments of a command; joining None to texts for the log raises a TypeError.
abbrev pub as_texts : List (Option String) → Result (List String)
as_texts [] = ok []
as_texts (none ∷ rest) = raise type_error
as_texts (some s ∷ rest) = elim (as_texts rest) [ ok ss ↦ ok (s ∷ ss) | raise e ↦ raise e ]
