-- ===== src/Prelude/Costs.antt =====
-- How much calls of the world add to a count, and how they leave it where they return.
use Prim.Native.Nat.{ℕ, ◌+◌, ◌≤◌}
use mathlib.Core.Path.{◌≡◌, refl, subst}
use mathlib.Core.Bool.{Bool, true, false}
use native.Mathlib.Omega.{arith}
use convert2rhel.Prelude.Equality.{if◌then◌else◌}
use convert2rhel.Prelude.Results.{Exn, Result, ok, raise}
use convert2rhel.Prelude.Calls.{Call, ◌>>=◌, computed, catch, finally}

-- The call adds at most `n` to the count.
pub record Costs {W A : Type 0} (count : W → ℕ) (n : ℕ) (call : Call W A) : Type 0 where
  pub bound : (w : W) → count (call w).1 ≤ count w + n

module _ {W : Type 0} {count : W → ℕ} {A : Type 0} where
  pub computed-Costs : {r : Result A} → Costs count 0 (computed r)
  computed-Costs = record { bound = λ w. omega arith }

  pub more-Costs : {m n : ℕ} {c : Call W A} → m ≤ n → Costs count m c → Costs count n c
  more-Costs h k = record { bound = λ w. omega (arith, k.bound w, h) }

  module _ {m n : ℕ} where
    pub catch-Costs :
        {c : Call W A} {handler : Exn → Call W A}
        → Costs count m c
        → ((e : Exn) → Costs count n (handler e))
        → Costs count (m + n) (catch c handler)
    catch-Costs {c} {handler} h k = record { bound = λ w. go w (c w) (h.bound w) }
      where
        go :
            (w : W) (end : Result A × W)
            → count end.1 ≤ count w + m
            → count (catch (λ _. end) handler w).1 ≤ count w + (m + n)
        go w (ok a, w1) h1 = omega (arith, h1)
        go w (raise e, w1) h1 = omega (arith, h1, (k e).bound w1)

    pub finally-Costs :
        {c : Call W A} {last : Call W (Unit {0})}
        → Costs count m c
        → Costs count n last
        → Costs count (m + n) (finally c last)
    finally-Costs {c} {last} h k = record {
      bound = λ w. go w (c w).0 (c w).1 (last (c w).1) (h.bound w) (k.bound (c w).1);
    }
      where
        go :
            (w : W) (r : Result A) (w1 : W) (end : Result (Unit {0}) × W)
            → count w1 ≤ count w + m
            → count end.1 ≤ count w1 + n
            → count (finally (λ w. (r, w1)) (λ w. end) w).1 ≤ count w + (m + n)
        go w r w1 (ok u, w2) h1 h2 = omega (arith, h1, h2)
        go w r w1 (raise e, w2) h1 h2 = omega (arith, h1, h2)

    pub bind-Costs :
        {B : Type 0} {c : Call W B} {next : B → Call W A}
        → Costs count m c
        → ((b : B) → Costs count n (next b))
        → Costs count (m + n) (c >>= next)
    bind-Costs {B} {c} {next} h k = record { bound = λ w. go w (c w) (h.bound w) }
      where
        go :
            (w : W) (end : Result B × W)
            → count end.1 ≤ count w + m
            → count (((λ _. end) >>= next) w).1 ≤ count w + (m + n)
        go w (ok b, w1) h1 = omega (arith, h1, (k b).bound w1)
        go w (raise e, w1) h1 = omega (arith, h1)

  pub if-Costs :
      {n : ℕ} (b : Bool) {c d : Call W A}
      → Costs count n c
      → Costs count n d
      → Costs count n (if b then c else d)
  if-Costs true h k = h
  if-Costs false h k = k

-- The call leaves the count as it was.
pub record Keeps {W A : Type 0} (count : W → ℕ) (call : Call W A) : Type 0 where
  pub kept : (w : W) → count (call w).1 ≡ count w

module _ {W : Type 0} {count : W → ℕ} {A : Type 0} where
  pub computed-Keeps : {r : Result A} → Keeps count (computed r)
  computed-Keeps = record { kept = λ w. refl }

  pub bind-Keeps :
      {B : Type 0} {c : Call W B} {next : B → Call W A}
      → Keeps count c
      → ((b : B) → Keeps count (next b))
      → Keeps count (c >>= next)
  bind-Keeps {B} {c} {next} h k = record { kept = λ w. go w (c w) (h.kept w) }
    where
      go :
          (w : W) (end : Result B × W)
          → count end.1 ≡ count w
          → count (((λ _. end) >>= next) w).1 ≡ count w
      go w (ok b, w1) h1 = omega (arith, h1, (k b).kept w1)
      go w (raise e, w1) h1 = h1

  pub if-Keeps :
      (b : Bool) {c d : Call W A} → Keeps count c → Keeps count d → Keeps count (if b then c else d)
  if-Keeps true h k = h
  if-Keeps false h k = k

-- Where the call returns in `w`, it leaves a value and a world as described.
abbrev pub At : {W A : Type 0} → (A → W → Type 0) → Result A × W → Type 0
At P (ok a, w) = P a w
At P (raise e, w) = Unit

pub record Leaves {W A : Type 0} (P : A → W → Type 0) (call : Call W A) : Type 0 where
  pub post : (w : W) → At P (call w)

module _ {W A B : Type 0} {Q : B → W → Type 0} {P : A → W → Type 0} where
  pub bind-Leaves :
      {c : Call W B} (next : B → Call W A)
      → Leaves Q c
      → ((b : B) (w : W) → Q b w → At P (next b w))
      → Leaves P (c >>= next)
  bind-Leaves {c} next h k = record { post = λ w. go w (c w) (h.post w) }
    where
      go : (w : W) (end : Result B × W) → At Q end → At P (((λ _. end) >>= next) w)
      go w (ok b, w1) h1 = k b w1 h1
      go w (raise x, w1) h1 = tt

pub any-Leaves : {W A : Type 0} (c : Call W A) → Leaves (λ a w. Unit) c
any-Leaves {W} {A} c = record { post = λ w. go (c w) }
  where
    go : (end : Result A × W) → At (λ a w. Unit) end
    go (ok a, w) = tt
    go (raise e, w) = tt

pub At-ok :
    {W A : Type 0} (P : A → W → Type 0) (a : A) (w : W) (end : Result A × W)
    → At P end
    → end ≡ (ok a, w)
    → P a w
At-ok P a w end p e = subst (At P) e p
