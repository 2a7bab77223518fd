-- ===== src/Actions/Order/Passes.antt =====
-- What one pass over the actions does.
use mathlib.Core.List.{perm_middle}
use mathlib.Core.List.Perm
use convert2rhel.Prelude.{
  ◌≤◌, ◌≡◌, refl, ap, String, Bool, true, false, List, [], ◌∷◌, ◌++◌, Perm, arith, length,
  string_eq, if◌then◌else◌, Bool-cases, inl, inr,
}
use convert2rhel.Actions.Action.{ActionClass}
use convert2rhel.Actions.Order.{satisfied, independent, pass}

module _ {W : Type 0} where
  -- The dependencies of each action are among the ids that were resolved before it.
  abbrev pub IsOrdered : List String → List (ActionClass W) → Type 0
  IsOrdered resolved [] = Unit
  IsOrdered resolved (c ∷ cs) = (satisfied resolved c ≡ true) × IsOrdered (c.id ∷ resolved) cs

  pub independent-satisfied :
      (resolved : List String) (c : ActionClass W)
      → independent resolved c ≡ true
      → satisfied resolved c ≡ true
  independent-satisfied resolved c h = ground arith

module _ {W : Type 0} (test : List String → ActionClass W → Bool) where
  pub pass-IsOrdered :
      ((resolved : List String) (c : ActionClass W)
        → test resolved c ≡ true
        → satisfied resolved c ≡ true)
      → (cs : List (ActionClass W)) (resolved : List String) (behind : List (ActionClass W))
      → IsOrdered (pass test cs resolved).resolved behind
      → IsOrdered resolved ((pass test cs resolved).yielded ++ behind)
  unfolding pass
  pass-IsOrdered sound [] resolved behind h = h
  pass-IsOrdered sound (c ∷ cs) resolved behind h = elim (Bool-cases (test resolved c)) [
    | inl p ↦
        rw p (sound resolved c p, pass-IsOrdered sound cs (c.id ∷ resolved) behind (rw p at h))
    | inr p ↦ rw p (pass-IsOrdered sound cs resolved behind (rw p at h))
  ]

  pub pass-perm :
      (cs : List (ActionClass W)) (resolved : List String)
      → let p = pass test cs resolved in Perm (p.yielded ++ p.unresolved) cs
  unfolding pass
  pass-perm [] resolved = Perm.rfl
  pass-perm (c ∷ cs) resolved = elim (Bool-cases (test resolved c)) [
    | inl p ↦ rw p (Perm.cons c (pass-perm cs (c.id ∷ resolved)))
    | inr p ↦ rw p (
        Perm.trans (perm_middle (pass test cs resolved).yielded (pass test cs resolved).unresolved)
          (Perm.cons c (pass-perm cs resolved)))
  ]

  -- A pass drops actions, or it changes nothing and no action passed the test.
  pub pass-length-le :
      (cs : List (ActionClass W)) (resolved : List String)
      → length (pass test cs resolved).unresolved ≤ length cs
  unfolding pass
  pass-length-le [] resolved = omega arith
  pass-length-le (c ∷ cs) resolved =
      ground (arith, pass-length-le cs (if test resolved c then c.id ∷ resolved else resolved))

  abbrev pub FailsAll : List String → List (ActionClass W) → Type 0
  FailsAll resolved [] = Unit
  FailsAll resolved (c ∷ cs) = (test resolved c ≡ false) × FailsAll resolved cs

  pub record Unchanged (cs : List (ActionClass W)) (resolved : List String) : Type 0 where
    pub none_yielded : (pass test cs resolved).yielded ≡ []
    pub same_resolved : (pass test cs resolved).resolved ≡ resolved
    pub same_unresolved : (pass test cs resolved).unresolved ≡ cs
    pub all_fail : FailsAll resolved cs

  pub pass-Unchanged :
      (cs : List (ActionClass W)) (resolved : List String)
      → length (pass test cs resolved).unresolved ≡ length cs
      → Unchanged cs resolved
  unfolding pass
  pass-Unchanged [] resolved h = record {
    none_yielded = refl;
    same_resolved = refl;
    same_unresolved = refl;
    all_fail = tt;
  }
  pass-Unchanged (c ∷ cs) resolved h = elim (Bool-cases (test resolved c)) [
    | inl p ↦ absurd (let k = rw p at h in omega (arith, pass-length-le cs (c.id ∷ resolved)))
    | inr p ↦
        let k = rw p at h in
        let u = pass-Unchanged cs resolved (omega arith) in
        record {
          none_yielded = rw p u.none_yielded;
          same_resolved = rw p u.same_resolved;
          same_unresolved = rw p (ap (λ rest. c ∷ rest) u.same_unresolved);
          all_fail = (p, u.all_fail);
        }
  ]
