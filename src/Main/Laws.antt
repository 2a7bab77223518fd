-- ===== src/Main/Laws.antt =====
-- What the exit codes of a run say, and when it rolls back (convert2rhel/main.py, main_locked).
use convert2rhel.Prelude.{
  ℕ, zero, suc, Bool, true, false, not, ◌&&◌, ◌||◌, Option, none, some, any, has_items, string_eq,
  ◌≡◌, subst, sym, Exn, if◌then◌else◌, arith, Bool-cases, inl, inr,
}
use convert2rhel.Phase.{same_phase}
use convert2rhel.Backup.{rollback_failed}
use convert2rhel.Actions.Outcomes.{Results}
use convert2rhel.Actions.Outcomes.Laws.{find-skip}
use convert2rhel.Main.Steps.{
  Crossing, changes_restored, post_actions_run, Raised, analysis_done, inhibited, exception, ending,
  Locals, Environment, call,
}
use convert2rhel.Main.Triples.{
  Triple, Ends, bind-Triple, call-At, read_locals-bind, read_control-Triple, if-Triple, At,
  fact-Triple, Triple-imp,
}
use convert2rhel.Main.Body.{
  in_prepare, in_pre, with_pre, in_analyze, in_post, with_post, fails, Stops, in_preparation,
  in_pre_actions, behind_pre_actions, inhibited_pre, behind_analysis, in_post_actions,
  behind_post_actions, inhibited_post,
}
use convert2rhel.Main.Handlers.{
  rolled_back, after_handling, handle_main_exceptions-Triple, update_facts-Triple,
  rollback_changes-Triple, provide_status-Triple,
}
use convert2rhel.Main.{
  get_failed_actions, report_analysis, handle, handle_inhibitors_found_exception,
  handle_analyze_exit, execution_phase,
}

abbrev same_crossing : Crossing → Crossing → Bool
same_crossing changes_restored changes_restored = true
same_crossing post_actions_run post_actions_run = true
same_crossing c d = false

-- Whether the run made this call.
unfoldable pub called : Crossing → Locals → Bool
called c l = any (same_crossing c) l.calls

-- There are results, in which no action failed or was skipped.
abbrev pub clean : Option Results → Bool
clean none = false
clean (some r) = not (fails r)

-- There are results, in which an action failed or was skipped.
abbrev pub failed : Option Results → Bool
failed none = false
failed (some r) = fails r

-- The changes are not restored where the actions behind the point of no return were run, and an
-- analysis does not run these.
unfoldable pub is_safe : Bool → Locals → Bool
unfolding called
is_safe analysis l =
    not (called changes_restored l && called post_actions_run l)
    && not (analysis && called post_actions_run l)

-- What an exit code says of the run, beside its being safe.
unfoldable pub explains : Bool → ℕ → Locals → Bool
unfolding is_safe
explains analysis zero l =
    is_safe analysis l
    && ((not analysis
          && (called post_actions_run l && (clean l.pre_results && clean l.post_results)))
        || (analysis && (called changes_restored l && clean l.pre_results)))
explains analysis (suc zero) l = is_safe analysis l
explains analysis (suc (suc zero)) l =
    is_safe analysis l
    && ((called changes_restored l && failed l.pre_results)
        || (called post_actions_run l && failed l.post_results))
explains analysis _ l = false

abbrev pub Safe : Bool → Raised → Locals → Type 0
Safe analysis e l = is_safe analysis l ≡ true

abbrev pub Explained : Bool → ℕ → Locals → Type 0
Explained analysis code l = explains analysis code l ≡ true

either_code :
    (P : ℕ → Bool) (m n : ℕ) (b : Bool) → P m ≡ true → P n ≡ true → P (if b then m else n) ≡ true
either_code P m n true h k = h
either_code P m n false h k = k

module _ {R W : Type 0} (env : Environment R W) (a : Bool) where
  abbrev pub Handles : Raised → Locals → Type 0
  Handles e l = Triple (Safe a) (At l) (handle env e) (Explained a)

  from_exception :
      (e : Exn) (l : Locals)
      → is_safe a l ≡ true
      → is_safe a (after_handling l) ≡ true
      → Handles (exception e) l
  unfolding handle explains
  from_exception e l s t =
      Triple-imp (handle_main_exceptions-Triple env (Safe a) l (λ e. s) (λ e. t)) (λ l' h. h)
        (λ c l' (h, k).
          subst (λ v. explains a v l' ≡ true) (sym k) (subst (λ v. is_safe a v ≡ true) (sym h) t))
        (λ e l' h. h)

  from_inhibited :
      (l : Locals)
      → is_safe a l ≡ true
      → is_safe a (after_handling l) ≡ true
      → explains a 2 (after_handling l) ≡ true
      → Handles inhibited l
  unfolding handle handle_inhibitors_found_exception explains
  from_inhibited l s t u =
      bind-Triple (handle_main_exceptions-Triple env (Safe a) l (λ e. s) (λ e. t)) λ c.
        fact-Triple λ k.
          bind-Triple (read_control-Triple (Safe a) (At (after_handling l))) λ control. record {
            ends = λ st h.
                subst (λ v. explains a (if rollback_failed control then 1 else 2) v ≡ true) (sym h)
                  (either_code (λ c. explains a c (after_handling l)) 1 2 (rollback_failed control)
                    t u);
          }

  failed-Triple :
      (pre : Results) (l : Locals)
      → Triple {R = R} {W = W}
          (Safe a)
          (At l)
          (call (λ w. (get_failed_actions env (some pre), w)))
          (λ f l'. (l' ≡ l) × (has_items f ≡ fails pre))
  unfolding call get_failed_actions
  failed-Triple pre l =
      let (found, e, h) = find-skip pre in
      record {
        ends = λ s k.
            subst
              (λ r.
                Ends (Safe a) (λ f l'. (l' ≡ l) × (has_items f ≡ fails pre)) (ending r) (s.locals))
              (sym e) (k, h);
      }

  report_analysis-Triple :
      (pre : Results) (l : Locals)
      → is_safe a l ≡ true
      → (fails pre ≡ true → explains a 2 l ≡ true)
      → (fails pre ≡ false → explains a 0 l ≡ true)
      → Triple (Safe a) (At l) (report_analysis env (some pre)) (Explained a)
  unfolding report_analysis explains
  report_analysis-Triple pre l s bad good =
      bind-Triple (provide_status-Triple env (Safe a) l (λ e. s) (some pre) true) λ u.
        bind-Triple (read_control-Triple (Safe a) (At l)) λ c.
          if-Triple (rollback_failed c)
            (λ k. record { ends = λ st h. subst (λ v. is_safe a v ≡ true) (sym h) s })
            λ k. bind-Triple (failed-Triple pre l) λ failed. fact-Triple λ f. record {
              ends = λ st h.
                  subst (λ v. explains a (if has_items failed then 2 else 0) v ≡ true) (sym h)
                    (elim (Bool-cases (fails pre)) [
                      | inl b ↦ ground (arith, f, b, bad b)
                      | inr b ↦ ground (arith, f, b, good b)
                    ]);
            }

  from_analysis : (pre : Results) → a ≡ true → Handles analysis_done (in_analyze pre)
  unfolding handle handle_analyze_exit explains is_safe called same_phase string_eq
  from_analysis pre h =
      let l = in_analyze pre in
      let back = rolled_back l in
      let here : is_safe a l ≡ true = ground (arith, h) in
      let there : is_safe a back ≡ true = ground (arith, h) in
      bind-Triple (call-At (env.finish_collection true) (λ e. here)) λ u.
        bind-Triple (update_facts-Triple env (Safe a) l (λ e. here)) λ u.
          bind-Triple (rollback_changes-Triple env (Safe a) l (λ e. here) (λ e. there)) λ u.
            read_locals-bind (λ l. report_analysis env l.pre_results)
              (report_analysis-Triple pre back there (λ f. ground (arith, h, f))
                (λ f. ground (arith, h, f)))

  pub handle-Triple : (e : Raised) (l : Locals) → Stops a e l → Handles e l
  unfolding explains is_safe called same_phase string_eq execution_phase
  handle-Triple e l (in_preparation x) = from_exception x in_prepare (ground arith) (ground arith)
  handle-Triple e l (in_pre_actions x) = from_exception x in_pre (ground arith) (ground arith)
  handle-Triple e l (behind_pre_actions pre x n) =
      from_exception x (with_pre pre) (ground (arith, n)) (ground (arith, n))
  handle-Triple e l (inhibited_pre pre f n) =
      from_inhibited (with_pre pre) (ground (arith, n)) (ground (arith, n)) (ground (arith, n, f))
  handle-Triple e l (behind_analysis pre y) = from_analysis pre y
  handle-Triple e l (in_post_actions pre x n) =
      from_exception x (in_post pre) (ground (arith, n)) (ground (arith, n))
  handle-Triple e l (behind_post_actions pre post x n) =
      from_exception x (with_post pre post) (ground (arith, n)) (ground (arith, n))
  handle-Triple e l (inhibited_post pre post f n) =
      from_inhibited (with_post pre post) (ground (arith, n)) (ground (arith, n))
        (ground (arith, n, f))
