-- ===== src/Actions/Stage/Blind.antt =====
-- A stage knows nothing of the failures of the stages before it.
use mathlib.Core.List.{Mem, mem-append_right, mem-cons_self, mem-map_of_mem}
use mathlib.Core.List.Perm
use convert2rhel.Prelude.{
  append-nil, contains-perm_sub, All-mem, any_mono, ◌≡◌, refl, String, true, false, List, [], ◌∷◌,
  ◌++◌, arith, contains, any, string_eq, All, Perm, ok,
}
use convert2rhel.Actions.Action.{ActionClass, Action}
use convert2rhel.Actions.Order.{ids}
use convert2rhel.Actions.Stage.{Traces, Stage, Finished, Progress, run_stages}
use convert2rhel.Actions.Stage.Ran.{classes}
use convert2rhel.Actions.Stage.Chain.{StageRan}
use convert2rhel.Actions.Stage.Laws.{Chain-of_ok}

module _ {W : Type 0} where
  nothing_skipped :
      (s : Stage W) (f : Finished W) (q : Progress W) (r : StageRan s f q)
      → All (λ c. any (contains (ids s.actions)) c.dependencies ≡ false) s.actions
      → r.ran.skips ≡ []
  nothing_skipped s f q r outside = go r.ran.skips refl
    where
      own : Perm (classes (r.ran.successes ++ (r.ran.failures ++ r.ran.skips))) s.actions
      own = Perm.trans r.ran.complete r.order_perm

      within : (d : String) → contains q.failed_ids d ≡ true → contains (ids s.actions) d ≡ true
      within d h =
          contains-perm_sub (ids r.order) (ids s.actions) d
            (Perm.map (λ (c : ActionClass W). c.id) r.order_perm)
            (ground (arith, r.ran.bounded d h))

      go : (ks : List (Action W)) → r.ran.skips ≡ ks → ks ≡ []
      go [] e = refl
      go (a ∷ ks) e =
          let m : Mem a (r.ran.successes ++ (r.ran.failures ++ r.ran.skips)) =
            mem-append_right r.ran.successes
              (mem-append_right r.ran.failures (rw e mem-cons_self)) in
          let free =
            All-mem (λ (c : ActionClass W). any (contains (ids s.actions)) c.dependencies ≡ false)
              (λ c. hlevel) s.actions a.class outside
              (Perm.subset own a.class (mem-map_of_mem (λ (b : Action W). b.class) m)) in
          let blocked = (rw e at r.ran.skips_blocked).0 in
          cc (
            free,
            any_mono (contains q.failed_ids) (contains (ids s.actions)) within a.class.dependencies
                blocked,
          )

module _ {W : Type 0} (traces : Traces) where
  -- If no action of a stage depends on an action of the same stage, a run of the stage skips
  -- nothing, whatever failed or was skipped in the stages before it.
  pub run_stage_never_skips :
      (s : Stage W) (f g : Finished W) (w : W)
      → All (λ c. any (contains (ids s.actions)) c.dependencies ≡ false) s.actions
      → (run_stages traces (s ∷ []) f w).0 ≡ ok g
      → g.skips ≡ f.skips
  run_stage_never_skips s f g w outside h =
      let (q, r, e) = Chain-of_ok traces (s ∷ []) f g w h in
      rw e (rw (r.ran.skips_added, nothing_skipped s f q r outside, append-nil))
