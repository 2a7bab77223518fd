-- ===== src/Actions/Stage/Laws.antt =====
-- What `Stage.run` promises: each action of each stage ends in one of the three lists, with a
-- result that fits it, and within a stage an action is run if and only if nothing that it depends
-- on has failed or was skipped there.
use mathlib.Core.List.{Nodup, Nodup-cons, mem-append_left, perm_middle}
use mathlib.Core.List.Perm
use convert2rhel.Prelude.{
  String, ◌≡◌, refl, subst, inl, inr, Bool, true, false, List, [], ◌∷◌, ◌++◌, Perm, arith,
  string_eq, contains, any, ◌||◌, fun_ext, not-contains, ok, All, All-append,
}
use convert2rhel.Actions.Action.{ActionClass, Action}
use convert2rhel.Actions.Order.{ids}
use convert2rhel.Actions.Stage.{
  Traces, Stage, Finished, Progress, all_finished, finished_ids, run_stages,
}
use convert2rhel.Actions.Stage.Ran.{classes, IsFresh, IsSuccess, IsFailure, IsSkip, action_ids, Ran}
use convert2rhel.Actions.Stage.Chain.{start, Chain, Chain-perm, stage_actions, run_stages-Chain}

module _ {W : Type 0} (traces : Traces) where
  pub Chain-of_ok :
      (stages : List (Stage W)) (f g : Finished W) (w : W)
      → (run_stages traces stages f w).0 ≡ ok g
      → Chain stages f g
  Chain-of_ok stages f g w h = elim (run_stages-Chain traces stages f w) [
    | inl (e, k, x) ↦ cc
    | inr (g', k, c) ↦ subst (Chain stages f) (cc) c
  ]

  -- When a run returns, the classes of the finished actions are those given and those of all the
  -- stages, each as often.
  pub run_stages-perm :
      (stages : List (Stage W)) (f g : Finished W) (w : W)
      → (run_stages traces stages f w).0 ≡ ok g
      → Perm (classes (all_finished g)) (classes (all_finished f) ++ stage_actions stages)
  run_stages-perm stages f g w h = Chain-perm stages f g (Chain-of_ok stages f g w h)

-- Each list holds only actions whose result has a level of its kind.
pub record IsSorted {W : Type 0} (f : Finished W) : Type 0 where
  pub successes_level : All IsSuccess f.successes
  pub failures_level : All IsFailure f.failures
  pub skips_level : All IsSkip f.skips

module _ {W : Type 0} (traces : Traces) where
  Ran-IsSorted :
      {cs : List (ActionClass W)} {p q : Progress W}
      → Ran cs p q
      → IsSorted p.finished
      → IsSorted q.finished
  Ran-IsSorted {cs} {p} {q} r v = record {
    successes_level =
        rw r.successes_added (All-append IsSuccess _ _ v.successes_level r.are_successes);
    failures_level = rw r.failures_added (All-append IsFailure _ _ v.failures_level r.are_failures);
    skips_level = rw r.skips_added (All-append IsSkip _ _ v.skips_level r.are_skips);
  }

  Chain-IsSorted :
      (stages : List (Stage W)) (f g : Finished W) → Chain stages f g → IsSorted f → IsSorted g
  Chain-IsSorted [] f g h v = rw h v
  Chain-IsSorted (s ∷ stages) f g (q, r, rest) v =
      Chain-IsSorted stages q.finished g rest (Ran-IsSorted r.ran v)

  -- When a run returns, the successes have the level SUCCESS, the failures the level SKIP,
  -- OVERRIDABLE or ERROR, and the skipped actions the level SKIP, if the lists given had.
  pub run_stages-IsSorted :
      (stages : List (Stage W)) (f g : Finished W) (w : W)
      → IsSorted f
      → (run_stages traces stages f w).0 ≡ ok g
      → IsSorted g
  run_stages-IsSorted stages f g w v h =
      Chain-IsSorted stages f g (Chain-of_ok traces stages f g w h) v

module _ {W : Type 0} where
  IsFresh-of_Nodup :
      (before : List String) (cs : List (ActionClass W))
      → Nodup (before ++ ids cs)
      → IsFresh before cs
  IsFresh-of_Nodup before [] n = tt
  IsFresh-of_Nodup before (c ∷ cs) n =
      let n' = Perm.nodup (perm_middle before (ids cs)) n in
      (
        not-contains before c.id (λ m. (Nodup-cons.0 n').0 (mem-append_left (ids cs) m)),
        IsFresh-of_Nodup (c.id ∷ before) cs n',
      )

  -- One of the dependencies is the id of one of the actions.
  abbrev pub depends_on : ActionClass W → List (Action W) → Bool
  depends_on c actions = any (contains (action_ids actions)) c.dependencies

  -- What one stage adds to the lists.
  pub record IsSifted (s : Stage W) (f g : Finished W) : Type 0 where
    pub successes : List (Action W)
    pub failures : List (Action W)
    pub skips : List (Action W)
    pub successes_added : g.successes ≡ f.successes ++ successes
    pub failures_added : g.failures ≡ f.failures ++ failures
    pub skips_added : g.skips ≡ f.skips ++ skips
    pub complete : Perm (classes (successes ++ (failures ++ skips))) s.actions
    pub successes_free : All (λ a. depends_on a.class (failures ++ skips) ≡ false) successes
    pub failures_free : All (λ a. depends_on a.class (failures ++ skips) ≡ false) failures
    pub skips_blocked : All (λ a. depends_on a.class (failures ++ skips) ≡ true) skips

  contains-action_ids :
      (xs ys : List (Action W)) (d : String)
      → contains (action_ids (xs ++ ys)) d
        ≡ (contains (action_ids xs) d || contains (action_ids ys) d)
  contains-action_ids [] ys d = refl
  contains-action_ids (x ∷ xs) ys d = ground (arith, contains-action_ids xs ys d)

  Ran-failed_ids :
      {cs : List (ActionClass W)} {f : Finished W} {q : Progress W} (r : Ran cs (start f) q)
      → contains q.failed_ids ≡ contains (action_ids (r.failures ++ r.skips))
  Ran-failed_ids r =
      fun_ext λ d. ground (arith, r.exact d, contains-action_ids r.failures r.skips d)

module _ {W : Type 0} (traces : Traces) where
  -- Where all ids differ, also from those of the actions finished before, a stage runs exactly
  -- the actions that depend on none that it finds failed or skips: its new successes and failures
  -- depend on none of its failures and skips, and each action that it skips depends on one.
  pub run_stage-IsSifted :
      (s : Stage W) (f g : Finished W) (w : W)
      → Nodup (finished_ids f ++ ids s.actions)
      → (run_stages traces (s ∷ []) f w).0 ≡ ok g
      → IsSifted s f g
  run_stage-IsSifted s f g w n h =
      let (q, r, e) = Chain-of_ok traces (s ∷ []) f g w h in
      let fresh = IsFresh-of_Nodup (finished_ids f) r.order (
        Perm.nodup
          (Perm.append_left (finished_ids f)
            (Perm.map (λ (c : ActionClass W). c.id) (Perm.symm r.order_perm)))
          n) in
      let failed = Ran-failed_ids r.ran in
      let (ss, fs) = r.ran.not_blocked (finished_ids f) r.ordered fresh in
      rw e (record {
        successes = r.ran.successes;
        failures = r.ran.failures;
        skips = r.ran.skips;
        successes_added = r.ran.successes_added;
        failures_added = r.ran.failures_added;
        skips_added = r.ran.skips_added;
        complete = Perm.trans r.ran.complete r.order_perm;
        successes_free =
            subst (λ t. All (λ a. any t a.class.dependencies ≡ false) r.ran.successes) failed ss;
        failures_free =
            subst (λ t. All (λ a. any t a.class.dependencies ≡ false) r.ran.failures) failed fs;
        skips_blocked =
            subst (λ t. All (λ a. any t a.class.dependencies ≡ true) r.ran.skips) failed
              r.ran.skips_blocked;
      })
