-- ===== src/Main/Triples.antt =====
-- Conditions on the locals of main.py that a piece of its code ends in.
use convert2rhel.Prelude.{
  Bool, true, false, ◌∷◌, ◌≡◌, refl, ap, ◌∙◌, subst, sym, Exn, Result, ok, raise, arith,
  if◌then◌else◌,
}
use convert2rhel.Phase.{Phase, make_current}
use convert2rhel.Phase.Laws.{set_current-phase}
use convert2rhel.Backup.{Control}
use convert2rhel.Main.Steps.{
  Crossing, call_noted, Raised, exception, Ending, returned, raised, Locals, State, ending, Code,
  ◌>>=◌, pure, throw, call, call_control, read_locals, set_locals, read_control, enter,
  enter_locals,
}

-- The locals behind setting a phase.
abbrev pub entered : Phase → Locals → Locals
entered p l = record l { phases = make_current p l.phases }

pub enter_locals-entered : (p : Phase) (l : Locals) → enter_locals p l ≡ ok (entered p l)
unfolding enter_locals
enter_locals-entered p l = ground (arith, set_current-phase p l.phases)

-- The locals behind a call that is noted.
abbrev pub noted : Crossing → Locals → Locals
noted e l = record l { calls = e ∷ l.calls }

abbrev pub At : Locals → Locals → Type 0
At l l' = l' ≡ l

at-raise :
    (X : Raised → Locals → Type 0) (l : Locals)
    → ((e : Exn) → X (exception e) l)
    → (l' : Locals) (e : Exn) → At l l'
    → X (exception e) l'
at-raise X l x l' e h = subst (X (exception e)) (sym h) (x e)

-- How code may end: it returns with `N` of its value and of the locals then, or raises with `X`.
abbrev pub Ends {ℓ} :
    {A : Type ℓ} → (Raised → Locals → Type 0) → (A → Locals → Type 0) → Ending A → Locals → Type 0
Ends X N (returned a) l = N a l
Ends X N (raised e) l = X e l

Ends-ending {ℓ} :
    {A : Type ℓ} (X : Raised → Locals → Type 0) (N : A → Locals → Type 0) (r : Result A)
    (l : Locals)
    → ((a : A) → r ≡ ok a → N a l)
    → ((e : Exn) → X (exception e) l)
    → Ends X N (ending r) l
Ends-ending X N (ok a) l n x = n a refl
Ends-ending X N (raise e) l n x = x e

-- From locals with `P`, the code ends so.
pub record Triple {ℓ} {R W : Type 0} {A : Type ℓ} (X : Raised → Locals → Type 0)
    (P : Locals → Type 0) (m : Code R W A) (N : A → Locals → Type 0) : Type ℓ where
  pub ends : (s : State R W) → P s.locals → Ends X N ((m s).0) ((m s).1.locals)

Ends-imp {ℓ} :
    {A : Type ℓ} (X Y : Raised → Locals → Type 0) (M N : A → Locals → Type 0) (r : Ending A)
    (l : Locals)
    → ((a : A) (l : Locals) → M a l → N a l)
    → ((e : Raised) (l : Locals) → X e l → Y e l)
    → Ends X M r l
    → Ends Y N r l
Ends-imp X Y M N (returned a) l n x h = n a l h
Ends-imp X Y M N (raised e) l n x h = x e l h

module _ {ℓ} {R W : Type 0} {A : Type ℓ} where
  pub call-Triple :
      (X : Raised → Locals → Type 0) (P : Locals → Type 0) (f : W → Result A × W)
      → ((l : Locals) (e : Exn) → P l → X (exception e) l)
      → Triple {R = R} X P (call f) (λ a. P)
  unfolding call
  call-Triple X P f x = record {
    ends = λ s h. Ends-ending X (λ a. P) ((f s.world).0) s.locals (λ a e. h) (λ e. x s.locals e h);
  }

  pub call_control-Triple :
      (X : Raised → Locals → Type 0) (P : Locals → Type 0)
      (f : Control R → W → Result A × Control R × W)
      → ((l : Locals) (e : Exn) → P l → X (exception e) l)
      → Triple X P (call_control f) (λ a. P)
  unfolding call_control
  call_control-Triple X P f x = record {
    ends = λ s h.
        Ends-ending X (λ a. P) ((f s.control s.world).0) s.locals (λ a e. h) (λ e. x s.locals e h);
  }

  pub call-At :
      {X : Raised → Locals → Type 0} {l : Locals} (f : W → Result A × W)
      → ((e : Exn) → X (exception e) l)
      → Triple {R = R} X (At l) (call f) (λ a. At l)
  call-At {X = X} {l = l} f x = call-Triple X (At l) f (at-raise X l x)

  pub call_control-At :
      {X : Raised → Locals → Type 0} {l : Locals} (f : Control R → W → Result A × Control R × W)
      → ((e : Exn) → X (exception e) l)
      → Triple X (At l) (call_control f) (λ a. At l)
  call_control-At {X = X} {l = l} f x = call_control-Triple X (At l) f (at-raise X l x)

  pub call_noted-At :
      {X : Raised → Locals → Type 0} {l : Locals} (c : Crossing)
      (f : Control R → W → Result A × Control R × W)
      → ((e : Exn) → X (exception e) (noted c l))
      → Triple X (At l) (call_noted c f) (λ a. At (noted c l))
  unfolding call_noted
  call_noted-At {X = X} {l = l} c f x = record {
    ends = λ s h.
        Ends-ending X (λ a. At (noted c l)) (f s.control s.world).0 (noted c s.locals)
          (λ a e. ap (noted c) h) (λ e. subst (X (exception e)) (sym (ap (noted c) h)) (x e));
  }

module _ {R W : Type 0} where
  Ends-bind {ℓ κ} :
      {A : Type ℓ} {B : Type κ}
      → (X : Raised → Locals → Type 0) (M : A → Locals → Type 0) (N : B → Locals → Type 0)
        (f : A → Code R W B) (r : Ending A) (s : State R W)
      → Ends X M r s.locals
      → ((a : A) → Triple X (M a) (f a) N)
      → let out = elim r as (λ x. Ending B × State R W) [
        | returned a ↦ f a s
        | raised e ↦ (raised e, s)
      ] in
        Ends X N (out.0) (out.1.locals)
  Ends-bind X M N f (returned a) s h k = (k a).ends s h
  Ends-bind X M N f (raised e) s h k = h

  pub bind-Triple {ℓ κ} :
      {A : Type ℓ} {B : Type κ}
      → {X : Raised → Locals → Type 0} {P : Locals → Type 0} → {m : Code R W A} {f : A → Code R W B}
      → {M : A → Locals → Type 0} {N : B → Locals → Type 0} → Triple X P m M
      → ((a : A) → Triple X (M a) (f a) N)
      → Triple X P (m >>= f) N
  unfolding ◌>>=◌
  bind-Triple {X = X} {m = m} {f = f} {M = M} {N = N} t k = record {
    ends = λ s h. Ends-bind X M N f ((m s).0) ((m s).1) (t.ends s h) k;
  }

  pub read_locals-Triple :
      (X : Raised → Locals → Type 0) (P : Locals → Type 0)
      → Triple {R = R} {W = W} X P read_locals (λ l l'. (l ≡ l') × P l')
  unfolding read_locals
  read_locals-Triple X P = record { ends = λ s h. (refl, h) }

  pub read_control-Triple :
      (X : Raised → Locals → Type 0) (P : Locals → Type 0)
      → Triple {R = R} {W = W} X P read_control (λ c. P)
  unfolding read_control
  read_control-Triple X P = record { ends = λ s h. h }

  pub set_locals-Triple :
      (X : Raised → Locals → Type 0) (P : Locals → Type 0) (l : Locals)
      → Triple {R = R} {W = W} X P (set_locals l) (λ u l'. l' ≡ l)
  unfolding set_locals
  set_locals-Triple X P l = record { ends = λ s h. refl }

  enter-ok :
      (p : Phase) (s : State R W) {l : Locals}
      → enter_locals p s.locals ≡ ok l
      → enter p s ≡ (returned tt, record s { locals = l })
  unfolding enter
  enter-ok p s h = ground (arith, h)

  pub enter-Triple :
      (X : Raised → Locals → Type 0) (p : Phase) (l : Locals)
      → Triple {R = R} {W = W} X (λ l'. l' ≡ l) (enter p) (λ u l'. l' ≡ entered p l)
  enter-Triple X p l = record {
    ends = λ s h.
        let e = enter-ok p s (ap (enter_locals p) h ∙ enter_locals-entered p l) in
        subst (λ t. Ends X (λ u l'. l' ≡ entered p l) (t.0) (t.1.locals)) (sym e) refl;
  }

  pub pure-Triple {ℓ} :
      {A : Type ℓ} (X : Raised → Locals → Type 0) (N : A → Locals → Type 0) (a : A)
      → Triple {R = R} {W = W} X (N a) (pure a) N
  pure-Triple X N a = record { ends = λ s h. h }

  pub throw-Triple {ℓ} :
      {A : Type ℓ} (X : Raised → Locals → Type 0) (N : A → Locals → Type 0) (e : Raised)
      → Triple {R = R} {W = W} X (X e) (throw e) N
  throw-Triple X N e = record { ends = λ s h. h }

  -- A weaker condition before, or a stronger one behind.
  pub Triple-imp {ℓ} :
      {A : Type ℓ} {X Y : Raised → Locals → Type 0} {P Q : Locals → Type 0} {m : Code R W A}
      {M N : A → Locals → Type 0}
      → Triple X P m M
      → ((l : Locals) → Q l → P l)
      → ((a : A) (l : Locals) → M a l → N a l)
      → ((e : Raised) (l : Locals) → X e l → Y e l)
      → Triple Y Q m N
  Triple-imp {X = X} {Y = Y} {m = m} {M = M} {N = N} t p n x = record {
    ends = λ s h. Ends-imp X Y M N ((m s).0) ((m s).1.locals) n x (t.ends s (p s.locals h));
  }

  pub if-Triple {ℓ} :
      {A : Type ℓ} {X : Raised → Locals → Type 0} {P : Locals → Type 0} {m k : Code R W A}
      {N : A → Locals → Type 0} (b : Bool)
      → (b ≡ true → Triple X P m N)
      → (b ≡ false → Triple X P k N)
      → Triple X P (if b then m else k) N
  if-Triple true t f = t refl
  if-Triple false t f = f refl

  -- Code that reads the locals goes on with those that they are.
  pub read_locals-bind {ℓ} :
      {B : Type ℓ} {X : Raised → Locals → Type 0} {l : Locals} {N : B → Locals → Type 0}
      (f : Locals → Code R W B)
      → Triple X (At l) (f l) N
      → Triple X (At l) (read_locals >>= f) N
  unfolding ◌>>=◌ read_locals
  read_locals-bind {X = X} {N = N} f t = record {
    ends = λ s h. subst (λ v. Ends X N ((f v s).0) ((f v s).1.locals)) (sym h) (t.ends s h);
  }

  -- A fact beside the condition is at hand behind it.
  pub fact-Triple {ℓ} :
      {A : Type ℓ} {C : Type 0} {X : Raised → Locals → Type 0} {P : Locals → Type 0}
      {m : Code R W A} {N : A → Locals → Type 0}
      → (C → Triple X P m N)
      → Triple X (λ l. P l × C) m N
  fact-Triple t = record { ends = λ s h. (t (h.1)).ends s (h.0) }
