-- ===== src/Actions/Stage/Loop.antt =====
-- The loop of `Stage.run` over a list of actions.
use mathlib.Core.List.{perm_middle}
use mathlib.Core.List.Perm
use convert2rhel.Prelude.{
  ◌≡◌, refl, ◌⊎◌, inl, inr, true, false, List, [], ◌∷◌, ◌++◌, Perm, arith, append_assoc, string_eq,
  keyboard_interrupt, ok, raise,
}
use convert2rhel.Actions.Action.{ActionClass, Action}
use convert2rhel.Actions.Stage.{Traces, Progress, visit, visit_all}
use convert2rhel.Actions.Stage.Visit.{
  Round, skipped, succeeded, failed, visit-cases, add_skip, add_success, add_failure,
}
use convert2rhel.Actions.Stage.Ran.{
  is_blocked, classes, IsSuccess, IsFailure, IsSkip, Ran, Ran-nil, has_items-filter, any-grows,
  any-stable,
}

module _ {W : Type 0} where
  perm_into_skips :
      (a : Action W) (xs ys zs : List (Action W)) {cs : List (ActionClass W)}
      → Perm (classes (xs ++ (ys ++ zs))) cs
      → Perm (classes (xs ++ (ys ++ (a ∷ zs)))) (a.class ∷ cs)
  perm_into_skips a xs ys zs p =
      Perm.trans
        (Perm.map (λ (b : Action W). b.class)
          (Perm.trans (Perm.append_left xs (perm_middle ys zs)) (perm_middle xs (ys ++ zs))))
        (Perm.cons a.class p)

  perm_into_failures :
      (a : Action W) (xs ys zs : List (Action W)) {cs : List (ActionClass W)}
      → Perm (classes (xs ++ (ys ++ zs))) cs
      → Perm (classes (xs ++ ((a ∷ ys) ++ zs))) (a.class ∷ cs)
  perm_into_failures a xs ys zs p =
      Perm.trans (Perm.map (λ (b : Action W). b.class) (perm_middle xs (ys ++ zs)))
        (Perm.cons a.class p)

  module _ (a : Action W) {cs : List (ActionClass W)} {p q : Progress W} where
    Ran-skip :
        IsSkip a
        → is_blocked p.failed_ids a.class ≡ true
        → Ran cs (add_skip a p) q
        → Ran (a.class ∷ cs) p q
    Ran-skip s b r = record {
      successes = r.successes;
      failures = r.failures;
      skips = a ∷ r.skips;
      successes_added = r.successes_added;
      failures_added = r.failures_added;
      skips_added = rw append_assoc at r.skips_added;
      complete = perm_into_skips a r.successes r.failures r.skips r.complete;
      are_successes = r.are_successes;
      are_failures = r.are_failures;
      are_skips = (s, r.are_skips);
      grows = λ d h. ground (arith, r.grows d);
      bounded = λ d h. ground (arith, r.bounded d h);
      exact = λ d. ground (arith, r.exact d);
      skips_blocked = (
        any-grows p.failed_ids q.failed_ids a.class.dependencies (λ d h. ground (arith, r.grows d))
            b,
        r.skips_blocked,
      );
      stable = λ before d f h. ground (arith, r.stable (a.class.id ∷ before) d f.1);
      not_blocked = λ before o f. r.not_blocked (a.class.id ∷ before) o.1 f.1;
    }

    Ran-success :
        IsSuccess a
        → is_blocked p.failed_ids a.class ≡ false
        → Ran cs (add_success a p) q
        → Ran (a.class ∷ cs) p q
    Ran-success s b r = record {
      successes = a ∷ r.successes;
      failures = r.failures;
      skips = r.skips;
      successes_added = rw append_assoc at r.successes_added;
      failures_added = r.failures_added;
      skips_added = r.skips_added;
      complete = Perm.cons a.class r.complete;
      are_successes = (s, r.are_successes);
      are_failures = r.are_failures;
      are_skips = r.are_skips;
      grows = r.grows;
      bounded = λ d h. ground (arith, r.bounded d h);
      exact = λ d. ground (arith, r.exact d);
      skips_blocked = r.skips_blocked;
      stable = λ before d f h. ground (arith, r.stable (a.class.id ∷ before) d f.1);
      not_blocked = λ before o f.
          let (ss, fs) = r.not_blocked (a.class.id ∷ before) o.1 f.1 in
          (
            (
              any-stable before p.failed_ids q.failed_ids a.class.dependencies
                  (λ d h. ground (arith, r.stable (a.class.id ∷ before) d f.1)) o.0 b,
              ss,
            ),
            fs,
          );
    }

    Ran-failure :
        IsFailure a
        → is_blocked p.failed_ids a.class ≡ false
        → Ran cs (add_failure a p) q
        → Ran (a.class ∷ cs) p q
    Ran-failure s b r = record {
      successes = r.successes;
      failures = a ∷ r.failures;
      skips = r.skips;
      successes_added = r.successes_added;
      failures_added = rw append_assoc at r.failures_added;
      skips_added = r.skips_added;
      complete = perm_into_failures a r.successes r.failures r.skips r.complete;
      are_successes = r.are_successes;
      are_failures = (s, r.are_failures);
      are_skips = r.are_skips;
      grows = λ d h. ground (arith, r.grows d);
      bounded = λ d h. ground (arith, r.bounded d h);
      exact = λ d. ground (arith, r.exact d);
      skips_blocked = r.skips_blocked;
      stable = λ before d f h. ground (arith, r.stable (a.class.id ∷ before) d f.1);
      not_blocked = λ before o f.
          let (ss, fs) = r.not_blocked (a.class.id ∷ before) o.1 f.1 in
          (
            ss,
            (
              any-stable before p.failed_ids q.failed_ids a.class.dependencies
                  (λ d h. ground (arith, r.stable (a.class.id ∷ before) d f.1)) o.0 b,
              fs,
            ),
          );
    }

module _ {W : Type 0} (traces : Traces) where
  Round-Ran :
      (c : ActionClass W) (cs : List (ActionClass W)) (p q r : Progress W)
      → Round traces c p q
      → Ran cs q r
      → Ran (c ∷ cs) p r
  Round-Ran c cs p q r (skipped a (k, l) b e) rest =
      rw k at (Ran-skip a l (rw has_items-filter at (rw (← k) at b)) (rw e at rest))
  Round-Ran c cs p q r (succeeded a (k, l) b e) rest =
      rw k at (Ran-success a l (rw has_items-filter at (rw (← k) at b)) (rw e at rest))
  Round-Ran c cs p q r (failed a (k, l) b e) rest =
      rw k at (Ran-failure a l (rw has_items-filter at (rw (← k) at b)) (rw e at rest))

  -- The loop over the actions ends by an interrupt of the user, or normally: no other exception of
  -- an action ends it. Then each action has been added to the successes, the failures or the skipped
  -- ones, with a result of a level of that list, and every action that was skipped has a dependency
  -- that failed or was skipped.
  pub visit_all-Ran :
      (cs : List (ActionClass W)) (p : Progress W) (w : W)
      → ((visit_all traces cs p w).0 ≡ raise keyboard_interrupt)
        ⊎ ((q : Progress W) × ((visit_all traces cs p w).0 ≡ ok q) × Ran cs p q)
  unfolding visit_all
  visit_all-Ran [] p w = inr (p, refl, Ran-nil p)
  visit_all-Ran (c ∷ cs) p w = elim (visit-cases traces c p w) [
    | inl stopped ↦ inl (rw (stopped, visit_all))
    | inr (q, e, round) ↦ elim (visit_all-Ran cs q (visit traces c p w).1) [
      | inl stopped ↦ inl (rw (e, visit_all) stopped)
      | inr (r, h, rest) ↦ inr (r, rw (e, visit_all) h, Round-Ran c cs p q r round rest)
    ]
  ]
