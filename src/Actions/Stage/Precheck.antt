-- ===== src/Actions/Stage/Precheck.antt =====
-- `Stage.check_dependencies` against `Stage.run`.
use mathlib.Core.List.Perm
use convert2rhel.Prelude.{
  ◌≡◌, refl, ap, String, true, false, none, ◌⊎◌, inl, inr, List, [], ◌∷◌, ◌++◌, map, Perm, arith,
  contains, string_eq, All, ok, raise, keyboard_interrupt, Option-cases, contains-perm_sub,
}
use convert2rhel.Actions.Action.{ActionClass, Action}
use convert2rhel.Actions.Order.{ids, resolve_action_order}
use convert2rhel.Actions.Order.Passes.{IsOrdered}
use convert2rhel.Actions.Order.Rounds.{contains-ids-append}
use convert2rhel.Actions.Order.Laws.{resolve-IsOrdered}
use convert2rhel.Actions.Order.Complete.{resolve_complete, satisfied_mono}
use convert2rhel.Actions.Stage.{
  Traces, Stage, Finished, Progress, no_finished, all_finished, finished_ids, run_actions,
  run_stages, check_dependencies,
}
use convert2rhel.Actions.Stage.Ran.{classes}
use convert2rhel.Actions.Stage.Chain.{
  start, StageRan, resolve-perm_of_none, all_finished-Ran, run_actions-of_none,
}

abbrev pub Covers : List String → List String → Type 0
Covers before after = (d : String) → contains before d ≡ true → contains after d ≡ true

module _ {W : Type 0} where
  IsOrdered-mono :
      (cs : List (ActionClass W)) (before after : List String)
      → Covers before after
      → IsOrdered before cs
      → IsOrdered after cs
  IsOrdered-mono [] before after sub o = tt
  IsOrdered-mono (c ∷ cs) before after sub o = (
    satisfied_mono before after sub c o.0,
    IsOrdered-mono cs (c.id ∷ before) (c.id ∷ after) (λ d h. ground (arith, sub d)) o.1,
  )

  abbrev pub Unrun : List (Stage W) → Type 0
  Unrun stages = All (λ s. s.has_run ≡ false) stages

  ids-classes : (actions : List (Action W)) → ids (classes actions) ≡ map (λ a. a.class.id) actions
  ids-classes [] = refl
  ids-classes (a ∷ actions) = ap (λ rest. a.class.id ∷ rest) (ids-classes actions)

  StageRan-Covers :
      (s : Stage W) (f : Finished W) (q : Progress W) (cs : List (ActionClass W))
      → StageRan s f q
      → Perm cs s.actions
      → Covers (ids cs) (finished_ids q.finished)
  StageRan-Covers s f q cs r p d h =
      let id_of = λ (c : ActionClass W). c.id in
      let order = r.order in
      let added : contains (ids (classes (all_finished f) ++ order)) d ≡ true = ground (
        arith,
        contains-ids-append (classes (all_finished f)) order d,
        contains-perm_sub (ids cs) (ids order) d
            (Perm.map id_of (Perm.trans p (Perm.symm r.order_perm))) h,
      ) in
      rw ids-classes at (
        contains-perm_sub (ids (classes (all_finished f) ++ order))
          (ids (classes (all_finished q.finished))) d
          (Perm.map id_of (Perm.symm (all_finished-Ran r.ran))) added)

  check-Covers :
      (s : Stage W) (f : Finished W) (previous : List String)
      → Covers previous (finished_ids f)
      → (resolve_action_order s.actions previous).error ≡ none
      → (resolve_action_order s.actions (finished_ids f)).error ≡ none
  check-Covers s f previous sub e =
      let order = (resolve_action_order s.actions previous).yielded in
      (resolve_complete s.actions order (finished_ids f)
        (IsOrdered-mono order previous (finished_ids f) sub (resolve-IsOrdered s.actions previous))
        (resolve-perm_of_none s.actions previous e)).0

module _ {W : Type 0} (traces : Traces) where
  checked-cases :
      (stages : List (Stage W)) (f : Finished W) (previous : List String) (w : W)
      → Unrun stages
      → Covers previous (finished_ids f)
      → check_dependencies stages previous ≡ none
      → ((run_stages traces stages f w).0 ≡ raise keyboard_interrupt)
        ⊎ ((g : Finished W) × ((run_stages traces stages f w).0 ≡ ok g))
  unfolding run_stages check_dependencies
  checked-cases [] f previous w u sub e = inr (f, refl)
  checked-cases (s ∷ stages) f previous w u sub e =
      let o = resolve_action_order s.actions previous in
      elim (Option-cases o.error) [
        | inr (x, bad) ↦ absurd (let k = rw (bad, check_dependencies) at e in cc)
        | inl fine ↦
            let e' = rw (fine, check_dependencies) at e in
            let fine' = check-Covers s f previous sub fine in
            elim (run_actions-of_none traces s f w fine') [
              | inl stopped ↦ inl (rw (u.0, run_stages, stopped))
              | inr (q, h, r) ↦
                  let w' =
                    (run_actions traces (resolve_action_order s.actions (finished_ids f)) (start f)
                      w).1 in
                  elim (checked-cases stages q.finished (ids o.yielded) w' u.1
                    (StageRan-Covers s f q o.yielded r
                      (resolve-perm_of_none s.actions previous fine))
                    e') [
                      | inl stopped ↦ inl (rw (u.0, run_stages, h) stopped)
                      | inr (g, k) ↦ inr (g, rw (u.0, run_stages, h) k)
                    ]
            ]
      ]

  -- If `check_dependencies` accepts stages that have not run, then `run` ends with all actions
  -- sorted or with an interrupt of the user: it raises no DependencyError, and no error of an
  -- action leaves it.
  pub run_stages_of_checked :
      (stages : List (Stage W)) (w : W)
      → Unrun stages
      → check_dependencies stages [] ≡ none
      → ((run_stages traces stages no_finished w).0 ≡ raise keyboard_interrupt)
        ⊎ ((g : Finished W) × ((run_stages traces stages no_finished w).0 ≡ ok g))
  run_stages_of_checked stages w u e = checked-cases stages _ [] w u (λ d h. cc) e
