-- ===== src/Prelude/Calls.antt =====
-- Code without attributes of its own, which calls the outside world: state passing with results.
use mathlib.Core.Path.{◌≡◌, ap, ◌∙◌}
use convert2rhel.Prelude.Results.{Exn, Result, ok, raise}

-- A call of the world `W`. The world that it leaves stays where it raises.
abbrev pub Call : Type 0 → Type 0 → Type 0
Call W A = W → Result A × W

module _ {W A B : Type 0} where
  infixl 5 ◌>>=◌
  -- The next call, unless the first one raises.
  abbrev pub ◌>>=◌ : Call W A → (A → Call W B) → Call W B
  (call >>= next) w = let (r, w') = call w in elim r [ ok a ↦ next a w' | raise e ↦ (raise e, w') ]

  pub bind-ok :
      (c : Call W A) (next : A → Call W B) {w w' : W} {a : A}
      → c w ≡ (ok a, w')
      → (c >>= next) w ≡ next a w'
  bind-ok c next {w} e = ap (λ end. ((λ _. end) >>= next) w) e

infixl 5 ◌>>◌
abbrev pub ◌>>◌ : {W B : Type 0} → Call W (Unit {0}) → Call W B → Call W B
first >> rest = first >>= λ u. rest

module _ {W A : Type 0} where
  -- A value that is computed without the world.
  abbrev pub computed : Result A → Call W A
  computed r w = (r, w)

  abbrev pub pure : A → Call W A
  pure a w = (ok a, w)

  abbrev pub throw : Exn → Call W A
  throw e w = (raise e, w)

  -- `try: ... except ...`, where the handler says which exceptions it takes.
  abbrev pub catch : Call W A → (Exn → Call W A) → Call W A
  catch body handler w =
      let (r, w') = body w in elim r [ ok a ↦ (ok a, w') | raise e ↦ handler e w' ]

  pub catch-raise :
      (body : Call W A) (handler : Exn → Call W A) {w w1 : W} {e : Exn}
      → body w ≡ (raise e, w1)
      → catch body handler w ≡ handler e w1
  catch-raise body handler {w} e = ap (λ end. catch (λ _. end) handler w) e

  -- `finally: ...`: what it raises takes the place of what the body raised or returned.
  abbrev pub finally : Call W A → Call W (Unit {0}) → Call W A
  finally body last w =
      let (r, w1) = body w in
      let (r', w2) = last w1 in elim r' [ ok _ ↦ (r, w2) | raise e ↦ (raise e, w2) ]

  pub finally-ok :
      (body : Call W A) (last : Call W (Unit {0})) {w w1 w2 : W} {a : A}
      → body w ≡ (ok a, w1)
      → last w1 ≡ (ok tt, w2)
      → finally body last w ≡ (ok a, w2)
  finally-ok body last {w} {w1} {w2} {a} e e2 =
      ap (λ end. finally (λ _. end) last w) e
      ∙ ap (λ end. finally (λ _. (ok a, w1)) (λ _. end) w) e2

abbrev pub do_nothing : {W : Type 0} → Call W (Unit {0})
do_nothing = pure tt
