-- ===== src/Actions/Order/Complete.antt =====
-- `resolve_action_order` finds an order of all the actions wherever there is one.
use mathlib.Core.List.Perm
use mathlib.Core.List.{
  Mem, mem-append, mem-cons_self, mem-cons_of_mem, not-mem-nil, mem-cons, mem-append_right,
}
use mathlib.Core.Logic.Or
use convert2rhel.Prelude.{
  ◌≡◌, refl, String, true, false, none, List, [], ◌∷◌, ◌++◌, Perm, arith, contains, string_eq,
  nat_eq, ◌||◌, all, append-nil,
}
use convert2rhel.Actions.Action.{ActionClass}
use convert2rhel.Actions.Order.{ids, satisfied, Resolution, resolve_action_order}
use convert2rhel.Actions.Order.Passes.{IsOrdered, FailsAll}
use convert2rhel.Actions.Order.Rounds.{IsExit}
use convert2rhel.Actions.Order.Laws.{resolve-perm, contains-resolve, resolve-ends}

module _ {W : Type 0} where
  FailsAll-mem :
      (resolved : List String) (c : ActionClass W) (cs : List (ActionClass W))
      → FailsAll satisfied resolved cs
      → Mem c cs
      → satisfied resolved c ≡ false
  FailsAll-mem resolved c [] f m = absurd (not-mem-nil m)
  FailsAll-mem resolved c (x ∷ xs) f m =
      Or.elim (hlevel) (mem-cons.0 m) (λ e. rw e f.0) (λ rest. FailsAll-mem resolved c xs f.1 rest)

  contains-ids-of_mem :
      (c : ActionClass W) (cs : List (ActionClass W)) → Mem c cs → contains (ids cs) c.id ≡ true
  contains-ids-of_mem c [] m = absurd (not-mem-nil m)
  contains-ids-of_mem c (x ∷ xs) m =
      Or.elim (hlevel) (mem-cons.0 m) (λ e. rw e (ground arith))
        (λ rest. ground (arith, contains-ids-of_mem c xs rest))

  pub satisfied_mono :
      (before after : List String)
      → ((d : String) → contains before d ≡ true → contains after d ≡ true)
      → (c : ActionClass W) → satisfied before c ≡ true
      → satisfied after c ≡ true
  satisfied_mono before after sub c = go c.dependencies
    where
      go : (ds : List String) → all (contains before) ds ≡ true → all (contains after) ds ≡ true
      go [] h = refl
      go (d ∷ ds) h = ground (arith, sub d, go ds)

  module _ (o : Resolution W) (potential : List (ActionClass W)) (previous : List String)
      (exit : IsExit o) (perm : Perm (o.yielded ++ o.unresolved) potential)
      (known : (d : String)
        → contains o.resolved d ≡ (contains (ids o.yielded) d || contains previous d)) where
    planned :
        (c : ActionClass W)
        → Mem c potential
        → satisfied o.resolved c ≡ true
        → contains o.resolved c.id ≡ true
    planned c m ready =
        Or.elim (hlevel) (mem-append.0 (Perm.subset (Perm.symm perm) c m))
          (λ y. ground (arith, known c.id, contains-ids-of_mem c o.yielded y))
          (λ u. cc (FailsAll-mem o.resolved c o.unresolved exit.all_stuck u))

    walk :
        (before : List String) (cs : List (ActionClass W))
        → ((d : String) → contains before d ≡ true → contains o.resolved d ≡ true)
        → IsOrdered before cs
        → ((c : ActionClass W) → Mem c cs → Mem c potential)
        → (c : ActionClass W) → Mem c cs
        → satisfied o.resolved c ≡ true
    walk before [] sub ordered within c m = absurd (not-mem-nil m)
    walk before (x ∷ xs) sub ordered within c m =
        let ready = satisfied_mono before o.resolved sub x ordered.0 in
        Or.elim (hlevel) (mem-cons.0 m) (λ e. rw e ready)
          (λ rest.
            walk (x.id ∷ before) xs
              (λ d h. ground (arith, sub d, planned x (within x mem-cons_self) ready)) ordered.1
              (λ c' m'. within c' (mem-cons_of_mem x m')) c rest)

    none_left :
        (order : List (ActionClass W))
        → IsOrdered previous order
        → Perm order potential
        → o.unresolved ≡ []
    none_left order ordered p = go o.unresolved refl
      where
        go : (us : List (ActionClass W)) → o.unresolved ≡ us → us ≡ []
        go [] e = refl
        go (u ∷ us) e =
            let m : Mem u o.unresolved = rw e mem-cons_self in
            let left = FailsAll-mem o.resolved u o.unresolved exit.all_stuck m in
            let m' =
              Perm.subset (Perm.symm p) u (Perm.subset perm u (mem-append_right o.yielded m)) in
            let ready =
              walk previous order (λ d h. ground (arith, known d)) ordered (λ c. Perm.subset p c) u
                m' in
            cc

  -- If the actions can be put in any order that puts dependencies first, no error is raised and
  -- all of them are yielded.
  pub resolve_complete :
      (potential order : List (ActionClass W)) (previous : List String)
      → IsOrdered previous order
      → Perm order potential
      → let o = resolve_action_order potential previous in
        (o.error ≡ none) × Perm o.yielded potential
  resolve_complete potential order previous ordered p =
      let x = resolve-ends potential previous in
      let e =
        none_left _ potential previous x (resolve-perm potential previous)
          (contains-resolve potential previous) order ordered p in
      (rw x.error_iff (rw e), rw (e, append-nil) at (resolve-perm potential previous))
