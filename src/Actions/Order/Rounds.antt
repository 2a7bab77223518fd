-- ===== src/Actions/Order/Rounds.antt =====
-- What the `while` loop does, under the invariant that holds when it is entered.
use mathlib.Core.List.Perm
use convert2rhel.Prelude.{
  ℕ, zero, suc, ◌≤◌, ◌≡◌, refl, String, Bool, false, none, some, List, [], ◌∷◌, ◌++◌, Perm, arith,
  append_assoc, length, contains, string_eq, nat_eq, ◌==◌, if◌then◌else◌, Bool-cases, inl, inr,
  has_items, ◌||◌, sym, dependency_error,
}
use convert2rhel.Actions.Action.{ActionClass}
use convert2rhel.Actions.Order.{ids, satisfied, Resolution, pass, resolve_rounds}
use convert2rhel.Actions.Order.Passes.{
  IsOrdered, pass-IsOrdered, pass-perm, pass-length-le, FailsAll, pass-Unchanged,
}

module _ {W : Type 0} where
  pub rounds-IsOrdered :
      (bound previous : ℕ) (resolved : List String) (cs : List (ActionClass W))
      → IsOrdered resolved (resolve_rounds bound previous resolved cs).yielded
  unfolding resolve_rounds
  rounds-IsOrdered zero previous resolved cs = tt
  rounds-IsOrdered (suc bound) previous resolved cs = elim (Bool-cases (previous == length cs)) [
    | inl stop ↦ rw stop tt
    | inr more ↦
        rw more (pass-IsOrdered satisfied (λ _ _ h. h) cs resolved _ (rounds-IsOrdered bound _ _ _))
  ]

  pub rounds-perm :
      (bound previous : ℕ) (resolved : List String) (cs : List (ActionClass W))
      → let o = resolve_rounds bound previous resolved cs in Perm (o.yielded ++ o.unresolved) cs
  unfolding resolve_rounds
  rounds-perm zero previous resolved cs = Perm.rfl
  rounds-perm (suc bound) previous resolved cs = elim (Bool-cases (previous == length cs)) [
    | inl stop ↦ rw stop Perm.rfl
    | inr more ↦
        rw (more, append_assoc)
          (Perm.trans (Perm.append_left _ (rounds-perm bound _ _ _))
            (pass-perm satisfied cs resolved))
  ]

  pub contains-pass :
      (test : List String → ActionClass W → Bool) (cs : List (ActionClass W))
      (resolved : List String) (d : String)
      → let p = pass test cs resolved in
        contains p.resolved d ≡ (contains (ids p.yielded) d || contains resolved d)
  unfolding pass
  contains-pass test [] resolved d = refl
  contains-pass test (c ∷ cs) resolved d = elim (Bool-cases (test resolved c)) [
    | inl p ↦ rw (p) (ground (arith, contains-pass test cs (c.id ∷ resolved) d))
    | inr p ↦ rw (p) (contains-pass test cs resolved d)
  ]

  pub contains-ids-append :
      (xs ys : List (ActionClass W)) (d : String)
      → contains (ids (xs ++ ys)) d ≡ (contains (ids xs) d || contains (ids ys) d)
  contains-ids-append [] ys d = refl
  contains-ids-append (x ∷ xs) ys d = ground (arith, contains-ids-append xs ys d)

  pub contains-rounds :
      (bound previous : ℕ) (resolved : List String) (cs : List (ActionClass W)) (d : String)
      → let o = resolve_rounds bound previous resolved cs in
        contains o.resolved d ≡ (contains (ids o.yielded) d || contains resolved d)
  unfolding resolve_rounds
  contains-rounds zero previous resolved cs d = refl
  contains-rounds (suc bound) previous resolved cs d = elim (Bool-cases (previous == length cs)) [
    | inl stop ↦ rw stop
    | inr more ↦
        rw (more, contains-ids-append)
          (ground (
            arith,
            contains-pass satisfied cs resolved d,
            contains-rounds bound (length cs) (pass satisfied cs resolved).resolved
                (pass satisfied cs resolved).unresolved d,
          ))
  ]

  -- The invariant at the head of the loop.
  pub record IsEntry (bound previous : ℕ) (resolved : List String) (cs : List (ActionClass W))
      : Type 0 where
    pub enough : previous ≤ bound
    pub fewer : length cs ≤ previous
    pub stuck : previous ≡ length cs → FailsAll satisfied resolved cs

  IsEntry-next :
      (bound previous : ℕ) (resolved : List String) (cs : List (ActionClass W))
      → IsEntry (suc bound) previous resolved cs
      → (previous == length cs) ≡ false
      → let p = pass satisfied cs resolved in IsEntry bound (length cs) p.resolved p.unresolved
  IsEntry-next bound previous resolved cs v more = record {
    enough = ground (arith, v.enough, v.fewer);
    fewer = pass-length-le satisfied cs resolved;
    stuck = λ same.
        let u = pass-Unchanged satisfied cs resolved (sym same) in
        rw (u.same_resolved, u.same_unresolved) u.all_fail;
  }

  -- The loop ends by its own test: no action that is left is ready, and the error names those.
  pub record IsExit (o : Resolution W) : Type 0 where
    pub all_stuck : FailsAll satisfied o.resolved o.unresolved
    pub error_iff :
        o.error
        ≡ (if has_items o.unresolved then some (dependency_error (ids o.unresolved)) else none)

  IsExit-stop :
      (previous : ℕ) (resolved : List String) (cs : List (ActionClass W))
      → FailsAll satisfied resolved cs
      → previous ≡ length cs
      → IsExit (record {
        yielded = [];
        resolved = resolved;
        unresolved = cs;
        error = if previous == 0 then none else some (dependency_error (ids cs));
      })
  IsExit-stop previous resolved [] f e = record { all_stuck = f; error_iff = ground arith }
  IsExit-stop previous resolved (c ∷ cs) f e = record { all_stuck = f; error_iff = ground arith }

  pub rounds-IsExit :
      (bound previous : ℕ) (resolved : List String) (cs : List (ActionClass W))
      → IsEntry bound previous resolved cs
      → IsExit (resolve_rounds bound previous resolved cs)
  unfolding resolve_rounds
  rounds-IsExit zero previous resolved cs v =
      let e : previous ≡ length cs = omega (arith, v.enough, v.fewer) in
      IsExit-stop previous resolved cs (v.stuck e) e
  rounds-IsExit (suc bound) previous resolved cs v = elim (Bool-cases (previous == length cs)) [
    | inl stop ↦
        let e : previous ≡ length cs = ground arith in
        rw stop (IsExit-stop previous resolved cs (v.stuck e) e)
    | inr more ↦
        let x = rounds-IsExit bound _ _ _ (IsEntry-next bound previous resolved cs v more) in
        rw more (record { all_stuck = x.all_stuck; error_iff = x.error_iff })
  ]
