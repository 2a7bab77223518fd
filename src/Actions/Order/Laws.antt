-- ===== src/Actions/Order/Laws.antt =====
-- What `resolve_action_order` promises: an order in which dependencies come first, of all the
-- actions, wherever there is one.
use mathlib.Core.List.Perm
use convert2rhel.Prelude.{
  ℕ, ◌+◌, ◌≡◌, refl, sym, ◌∙◌, some, none, dependency_error, if◌then◌else◌, String, Bool, false,
  not, List, [], ◌∷◌, ◌++◌, Perm, arith, append_assoc, length, contains, string_eq, nat_eq,
  has_items, ◌||◌, all, sorted, text_le, sorted-perm, length-sorted,
}
use convert2rhel.Actions.Action.{ActionClass}
use convert2rhel.Actions.Order.{
  Resolution, ids, satisfied, independent, pass, resolve_rounds, resolve_action_order,
}
use convert2rhel.Actions.Order.Passes.{
  IsOrdered, independent-satisfied, pass-IsOrdered, pass-perm, pass-length-le, FailsAll,
  pass-Unchanged,
}
use convert2rhel.Actions.Order.Rounds.{
  rounds-IsOrdered, rounds-perm, contains-pass, contains-ids-append, contains-rounds, IsEntry,
  IsExit, rounds-IsExit,
}

contains-append :
    (xs ys : List String) (d : String) → contains (xs ++ ys) d ≡ (contains xs d || contains ys d)
contains-append [] ys d = refl
contains-append (x ∷ xs) ys d = ground (arith, contains-append xs ys d)

all-contains :
    (xs ys ds : List String)
    → ((d : String) → contains xs d ≡ contains ys d)
    → all (contains xs) ds ≡ all (contains ys) ds
all-contains xs ys [] h = refl
all-contains xs ys (d ∷ ds) h = rw (h d, all-contains xs ys ds h) refl

module _ {W : Type 0} where
  abbrev by_id : ActionClass W → ActionClass W → Bool
  by_id c d = text_le c.id d.id

  -- Every action that is yielded has its dependencies among the actions resolved before the call
  -- and those yielded before it.
  pub resolve-IsOrdered :
      (potential : List (ActionClass W)) (previous : List String)
      → IsOrdered previous (resolve_action_order potential previous).yielded
  unfolding resolve_action_order
  resolve-IsOrdered potential previous =
      pass-IsOrdered independent independent-satisfied (sorted by_id potential) previous _
        (rounds-IsOrdered _ _ _ _)

  -- The actions yielded and those left unresolved are the given ones, each as often.
  pub resolve-perm :
      (potential : List (ActionClass W)) (previous : List String)
      → let o = resolve_action_order potential previous in
        Perm (o.yielded ++ o.unresolved) potential
  unfolding resolve_action_order
  resolve-perm potential previous =
      let cs = sorted by_id potential in
      let p = pass independent cs previous in
      let n = length potential + length previous in
      rw append_assoc (
        Perm.trans (Perm.append_left p.yielded (rounds-perm n n p.resolved p.unresolved))
          (Perm.trans (pass-perm independent cs previous) (sorted-perm by_id potential)))

  pub contains-resolve :
      (potential : List (ActionClass W)) (previous : List String) (d : String)
      → let o = resolve_action_order potential previous in
        contains o.resolved d ≡ (contains (ids o.yielded) d || contains previous d)
  unfolding resolve_action_order
  contains-resolve potential previous d =
      let cs = sorted by_id potential in
      let p = pass independent cs previous in
      let n = length potential + length previous in
      rw contains-ids-append (
        ground (
          arith,
          contains-pass independent cs previous d,
          contains-rounds n n p.resolved p.unresolved d,
        ))

  dependent-stuck :
      (cs : List (ActionClass W)) → FailsAll independent [] cs → FailsAll satisfied [] cs
  dependent-stuck [] f = tt
  dependent-stuck (c ∷ cs) f = (fails c.dependencies f.0, dependent-stuck cs f.1)
    where
      fails : (ds : List String) → not (has_items ds) ≡ false → all (contains []) ds ≡ false
      fails [] h = cc
      fails (d ∷ ds) h = refl

  start-stuck :
      (cs : List (ActionClass W)) (previous : List String)
      → length cs + length previous ≡ length (pass independent cs previous).unresolved
      → let p = pass independent cs previous in FailsAll satisfied p.resolved p.unresolved
  start-stuck cs (x ∷ xs) e = absurd (omega (arith, pass-length-le independent cs (x ∷ xs)))
  start-stuck cs [] e =
      let u = pass-Unchanged independent cs [] (omega arith) in
      rw (u.same_resolved, u.same_unresolved) (dependent-stuck cs u.all_fail)

  FailsAll-same :
      (xs ys : List String) (cs : List (ActionClass W))
      → ((d : String) → contains xs d ≡ contains ys d)
      → FailsAll satisfied xs cs
      → FailsAll satisfied ys cs
  FailsAll-same xs ys [] h f = tt
  FailsAll-same xs ys (c ∷ cs) h f =
      (sym (all-contains xs ys c.dependencies h) ∙ f.0, FailsAll-same xs ys cs h f.1)

  -- No action that is left has its dependencies among the ids yielded and those resolved before, and
  -- the error names those that are left.
  pub record IsBlocked (previous : List String) (o : Resolution W) : Type 0 where
    pub all_blocked : FailsAll satisfied (ids o.yielded ++ previous) o.unresolved
    pub error_iff :
        o.error
        ≡ (if has_items o.unresolved then some (dependency_error (ids o.unresolved)) else none)

  pub resolve-ends :
      (potential : List (ActionClass W)) (previous : List String)
      → IsExit (resolve_action_order potential previous)
  unfolding resolve_action_order
  resolve-ends potential previous = record { all_stuck = x.all_stuck; error_iff = x.error_iff }
    where
      cs : List (ActionClass W)
      cs = sorted by_id potential

      n : ℕ
      n = length potential + length previous

      e :
          IsEntry n n
            (pass independent cs previous).resolved
            (pass independent cs previous).unresolved
      e = record {
        enough = omega arith;
        fewer =
            omega (arith, pass-length-le independent cs previous, length-sorted by_id potential);
        stuck = λ h. start-stuck cs previous (omega (arith, length-sorted by_id potential));
      }

      x : IsExit (
          resolve_rounds n n
            (pass independent cs previous).resolved
            (pass independent cs previous).unresolved)
      x = rounds-IsExit n n _ _ e

  -- Each action left unresolved has a dependency that was neither resolved before the call nor is
  -- yielded by it, and the generator ends with a DependencyError, which names exactly the actions
  -- left, if and only if there are some.
  pub resolve-IsExit :
      (potential : List (ActionClass W)) (previous : List String)
      → IsBlocked previous (resolve_action_order potential previous)
  resolve-IsExit potential previous =
      let o = resolve_action_order potential previous in
      let x = resolve-ends potential previous in
      record {
        all_blocked =
            FailsAll-same o.resolved (ids o.yielded ++ previous) o.unresolved
              (λ d.
                contains-resolve potential previous d
                ∙ sym (contains-append (ids o.yielded) previous d))
              x.all_stuck;
        error_iff = x.error_iff;
      }
