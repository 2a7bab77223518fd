-- ===== src/Actions/Stage/Chain.antt =====
-- `Stage.run` over a stage and the stages linked behind it.
use mathlib.Core.List.{perm_append_comm, map-append}
use mathlib.Core.List.Perm
use convert2rhel.Prelude.{
  String, ◌≡◌, refl, sym, subst, ◌⊎◌, inl, inr, none, some, List, [], ◌∷◌, ◌++◌, Perm, append_assoc,
  append-nil, has_items, if◌then◌else◌, keyboard_interrupt, ok, raise, Bool-cases, Exn,
  Option-cases, action_error, dependency_error,
}
use convert2rhel.Actions.Action.{ActionClass, Action}
use convert2rhel.Actions.Order.{ids, Resolution, resolve_action_order}
use convert2rhel.Actions.Order.Passes.{IsOrdered}
use convert2rhel.Actions.Order.Rounds.{IsExit}
use convert2rhel.Actions.Order.Laws.{resolve-IsOrdered, resolve-perm, resolve-ends}
use convert2rhel.Actions.Stage.{
  Traces, Stage, Finished, Progress, all_finished, finished_ids, run_actions, run_stages,
}
use convert2rhel.Actions.Stage.Ran.{classes, Ran}
use convert2rhel.Actions.Stage.Loop.{visit_all-Ran}

regroup : {A : Type 0} (ls xs ms ys : List A) → (ls ++ xs) ++ (ms ++ ys) ≡ ls ++ ((xs ++ ms) ++ ys)
regroup ls xs ms ys = simp append_assoc

interchange :
    {A : Type 0} (ls xs ms ys : List A) → Perm ((ls ++ xs) ++ (ms ++ ys)) ((ls ++ ms) ++ (xs ++ ys))
interchange ls xs ms ys =
    subst (λ r. Perm r ((ls ++ ms) ++ (xs ++ ys))) (sym (regroup ls xs ms ys))
      (subst (λ r. Perm (ls ++ ((xs ++ ms) ++ ys)) r) (sym (regroup ls ms xs ys))
        (Perm.append_left ls (Perm.append_right ys (perm_append_comm xs ms))))

interchange₃ :
    {A : Type 0} (ls xs ms ys ns zs : List A)
    → Perm ((ls ++ xs) ++ ((ms ++ ys) ++ (ns ++ zs))) ((ls ++ (ms ++ ns)) ++ (xs ++ (ys ++ zs)))
interchange₃ ls xs ms ys ns zs =
    Perm.trans (Perm.append_left (ls ++ xs) (interchange ms ys ns zs))
      (interchange ls xs (ms ++ ns) (ys ++ zs))

module _ {W : Type 0} where
  abbrev pub start : Finished W → Progress W
  start f = record { finished = f; failed_ids = [] }

  unresolved-nil : (o : Resolution W) → IsExit o → o.error ≡ none → o.unresolved ≡ []
  unresolved-nil o x e = go o.unresolved x.error_iff
    where
      go :
          (us : List (ActionClass W))
          → o.error ≡ (if has_items us then some (dependency_error (ids us)) else none)
          → us ≡ []
      go [] h = refl
      go (u ∷ us) h = cc

  pub resolve-perm_of_none :
      (potential : List (ActionClass W)) (previous : List String)
      → (resolve_action_order potential previous).error ≡ none
      → Perm (resolve_action_order potential previous).yielded potential
  resolve-perm_of_none potential previous e =
      rw (unresolved-nil _ (resolve-ends potential previous) e, append-nil) at
        (resolve-perm potential previous)

  -- What a stage does to the finished actions when it runs to its end: its actions are run in an
  -- order that puts dependencies first, and the loop over them ends in `q`.
  pub record StageRan (s : Stage W) (f : Finished W) (q : Progress W) : Type 0 where
    pub order : List (ActionClass W)
    pub order_perm : Perm order s.actions
    pub ordered : IsOrdered (finished_ids f) order
    pub ran : Ran order (start f) q

  abbrev pub Chain : List (Stage W) → Finished W → Finished W → Type 0
  Chain [] f g = g ≡ f
  Chain (s ∷ stages) f g = (q : Progress W) × StageRan s f q × Chain stages q.finished g

  pub all_finished-Ran :
      {cs : List (ActionClass W)} {p q : Progress W}
      → Ran cs p q
      → Perm (classes (all_finished q.finished)) (classes (all_finished p.finished) ++ cs)
  all_finished-Ran {cs} {p} {q} r =
      let before = all_finished p.finished in
      let added = r.successes ++ (r.failures ++ r.skips) in
      let moved : Perm (all_finished q.finished) (before ++ added) =
        rw (r.successes_added, r.failures_added, r.skips_added)
          (interchange₃ p.finished.successes r.successes p.finished.failures r.failures
            p.finished.skips r.skips) in
      Perm.trans (Perm.map (λ (a : Action W). a.class) moved)
        (rw map-append (Perm.append_left (classes before) r.complete))

  -- The actions of all the stages.
  abbrev pub stage_actions : List (Stage W) → List (ActionClass W)
  stage_actions [] = []
  stage_actions (s ∷ stages) = s.actions ++ stage_actions stages

  pub Chain-perm :
      (stages : List (Stage W)) (f g : Finished W)
      → Chain stages f g
      → Perm (classes (all_finished g)) (classes (all_finished f) ++ stage_actions stages)
  Chain-perm [] f g h = rw (h, append-nil) Perm.rfl
  Chain-perm (s ∷ stages) f g (q, r, rest) =
      let later = stage_actions stages in
      let before = classes (all_finished f) in
      let now : Perm (classes (all_finished q.finished)) (before ++ s.actions) =
        Perm.trans (all_finished-Ran r.ran) (Perm.append_left before r.order_perm) in
      Perm.trans (Chain-perm stages q.finished g rest) (
        subst (Perm (classes (all_finished q.finished) ++ later))
          (append_assoc before s.actions later) (Perm.append_right later now))

-- The exceptions that can leave `Stage.run`.
abbrev pub IsEscape : Exn → Type 0
IsEscape e =
    (e ≡ keyboard_interrupt)
    ⊎ ((e ≡ action_error) ⊎ ((ds : List String) × (e ≡ dependency_error ds)))

module _ {W : Type 0} (traces : Traces) where
  error-dependency :
      (o : Resolution W) (e : Exn)
      → IsExit o
      → o.error ≡ some e
      → (ds : List String) × (e ≡ dependency_error ds)
  error-dependency o e x h = go o.unresolved x.error_iff
    where
      go :
          (us : List (ActionClass W))
          → o.error ≡ (if has_items us then some (dependency_error (ids us)) else none)
          → (ds : List String) × (e ≡ dependency_error ds)
      go [] k = cc
      go (u ∷ us) k = (ids (u ∷ us), cc)

  -- The run of one stage, if its actions can be put in order.
  pub run_actions-of_none :
      (s : Stage W) (f : Finished W) (w : W)
      → let o = resolve_action_order s.actions (finished_ids f) in
        o.error ≡ none
        → ((run_actions traces o (start f) w).0 ≡ raise keyboard_interrupt)
          ⊎ ((q : Progress W) × ((run_actions traces o (start f) w).0 ≡ ok q) × StageRan s f q)
  unfolding run_actions
  run_actions-of_none s f w fine =
      let previous = finished_ids f in
      let o = resolve_action_order s.actions previous in
      elim (visit_all-Ran traces o.yielded (start f) w) [
        | inl stopped ↦ inl (rw (fine, run_actions) stopped)
        | inr (q, h, r) ↦ inr (
          q,
          rw (fine, run_actions) h,
          record {
            order = o.yielded;
            order_perm = resolve-perm_of_none s.actions previous fine;
            ordered = resolve-IsOrdered s.actions previous;
            ran = r;
          },
        )
      ]

  -- The run of one stage.
  run_actions-cases :
      (s : Stage W) (f : Finished W) (w : W)
      → let o = resolve_action_order s.actions (finished_ids f) in
        ((e : Exn) × ((run_actions traces o (start f) w).0 ≡ raise e) × IsEscape e)
        ⊎ ((q : Progress W) × ((run_actions traces o (start f) w).0 ≡ ok q) × StageRan s f q)
  unfolding run_actions
  run_actions-cases s f w =
      let previous = finished_ids f in
      let o = resolve_action_order s.actions previous in
      elim (Option-cases o.error) [
        | inl fine ↦ elim (run_actions-of_none s f w fine) [
          | inl stopped ↦ inl (keyboard_interrupt, stopped, inl refl)
          | inr done ↦ inr done
        ]
        | inr (e, bad) ↦ elim (visit_all-Ran traces o.yielded (start f) w) [
          | inl stopped ↦ inl (keyboard_interrupt, rw (bad, run_actions, stopped), inl refl)
          | inr (q, h, r) ↦ inl (
            e,
            rw (bad, run_actions, h),
            inr (inr (error-dependency o e (resolve-ends s.actions previous) bad)),
          )
        ]
      ]

  -- A run of the stages that returns went through all of them.
  pub run_stages-Chain :
      (stages : List (Stage W)) (f : Finished W) (w : W)
      → ((e : Exn) × ((run_stages traces stages f w).0 ≡ raise e) × IsEscape e)
        ⊎ ((g : Finished W) × ((run_stages traces stages f w).0 ≡ ok g) × Chain stages f g)
  unfolding run_stages
  run_stages-Chain [] f w = inr (f, refl, refl)
  run_stages-Chain (s ∷ stages) f w = elim (Bool-cases s.has_run) [
    | inl again ↦ inl (action_error, rw (again, run_stages), inr (inl refl))
    | inr first ↦ elim (run_actions-cases s f w) [
      | inl (e, h, x) ↦ inl (e, rw (first, run_stages, h), x)
      | inr (q, h, r) ↦
          let w' =
            (run_actions traces (resolve_action_order s.actions (finished_ids f)) (start f) w).1 in
          elim (run_stages-Chain stages q.finished w') [
            | inl (e, k, x) ↦ inl (e, rw (first, run_stages, h) k, x)
            | inr (g, k, c) ↦ inr (g, rw (first, run_stages, h) k, (q, r, c))
          ]
    ]
  ]
