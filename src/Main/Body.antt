-- ===== src/Main/Body.antt =====
-- The locals in which the `try` clause of `main_locked` may end (convert2rhel/main.py).
use convert2rhel.Prelude.{
  ℕ, Bool, true, false, none, some, [], any, ◌==◌, ◌≡◌, ap, ◌∙◌, subst, sym, Exn, string_eq, inl,
  inr, arith, if◌then◌else◌, Bool-cases,
}
use convert2rhel.Phase.{post_cli, prepare, pre_ponr_changes, analyze_exit, post_ponr_changes}
use convert2rhel.Actions.Outcomes.{Results}
use convert2rhel.Actions.Outcomes.Laws.{is_failing, find-skip}
use convert2rhel.Main.Steps.{
  post_actions_run, Raised, analysis_done, inhibited, exception, returned, raised, Locals, State,
  Environment, set_locals,
}
use convert2rhel.Main.Triples.{
  Triple, Ends, entered, noted, bind-Triple, call-At, call_control-At, call_noted-At,
  read_locals-bind, set_locals-Triple, enter-Triple, if-Triple, At, fact-Triple,
}
use convert2rhel.Main.{
  raise_for_skipped_failures, get_failed_actions, conversion_report, keep_pre_results,
  keep_post_results, convert_system, try_conversion,
}

-- The locals of a new process, and those of the steps of a conversion.
abbrev pub start : Locals
start = record {
  pre_results = none;
  post_results = none;
  phases = record { current = none; last_stage = λ p. none };
  calls = [];
}

abbrev pub in_prepare : Locals
in_prepare = entered prepare (entered post_cli start)

abbrev pub in_pre : Locals
in_pre = entered pre_ponr_changes in_prepare

abbrev pub with_pre : Results → Locals
with_pre pre = record in_pre { pre_results = some pre }

abbrev pub in_analyze : Results → Locals
in_analyze pre = entered analyze_exit (with_pre pre)

abbrev pub before_post : Results → Locals
before_post pre = entered post_ponr_changes (with_pre pre)

abbrev pub in_post : Results → Locals
in_post pre = noted post_actions_run (before_post pre)

abbrev pub with_post : Results → Results → Locals
with_post pre post = record (in_post pre) { post_results = some post }

abbrev pub fails : Results → Bool
fails = any is_failing

-- Where it may raise what, when the analysis is wanted or not.
pub data Stops (analysis : Bool) : Raised → Locals → Type 0 where
  in_preparation : (e : Exn) → Stops analysis (exception e) in_prepare
  in_pre_actions : (e : Exn) → Stops analysis (exception e) in_pre
  behind_pre_actions :
      (pre : Results) (e : Exn) → analysis ≡ false → Stops analysis (exception e) (with_pre pre)
  inhibited_pre :
      (pre : Results)
      → fails pre ≡ true
      → analysis ≡ false
      → Stops analysis inhibited (with_pre pre)
  behind_analysis :
      (pre : Results) → analysis ≡ true → Stops analysis analysis_done (in_analyze pre)
  in_post_actions :
      (pre : Results) (e : Exn) → analysis ≡ false → Stops analysis (exception e) (in_post pre)
  behind_post_actions :
      (pre post : Results) (e : Exn)
      → analysis ≡ false
      → Stops analysis (exception e) (with_post pre post)
  inhibited_post :
      (pre post : Results)
      → fails post ≡ true
      → analysis ≡ false
      → Stops analysis inhibited (with_post pre post)

-- Where it returns.
pub data Converted (analysis : Bool) : ℕ → Locals → Type 0 where
  converted :
      (pre post : Results)
      → fails pre ≡ false
      → fails post ≡ false
      → analysis ≡ false
      → Converted analysis 0 (with_post pre post)

module _ {R W : Type 0} (env : Environment R W) where
  raise_for_skipped_failures-eq :
      (r : Results) (s : State R W)
      → raise_for_skipped_failures env r s
        ≡ (if fails r then (raised inhibited, s) else (returned tt, s))
  unfolding raise_for_skipped_failures get_failed_actions
  raise_for_skipped_failures-eq r s = let (found, e, h) = find-skip r in ground (arith, e, h)

  pub raise_for_skipped_failures-Triple :
      (X : Raised → Locals → Type 0) (r : Results) (l : Locals)
      → (fails r ≡ true → X inhibited l)
      → Triple X (At l) (raise_for_skipped_failures env r) (λ u l'. (l' ≡ l) × (fails r ≡ false))
  raise_for_skipped_failures-Triple X r l x = record {
    ends = λ s h. elim (Bool-cases (fails r)) [
      | inl b ↦
          subst (λ t. Ends X (λ u l'. (l' ≡ l) × (fails r ≡ false)) (t.0) (t.1.locals))
            (sym (
              raise_for_skipped_failures-eq r s
              ∙ ap (λ v. if v then (raised inhibited, s) else (returned tt, s)) b))
            (subst (X inhibited) (sym h) (x b))
      | inr b ↦
          subst (λ t. Ends X (λ u l'. (l' ≡ l) × (fails r ≡ false)) (t.0) (t.1.locals))
            (sym (
              raise_for_skipped_failures-eq r s
              ∙ ap (λ v. if v then (raised inhibited, s) else (returned tt, s)) b))
            (h, b)
    ];
  }

  abbrev Stop : Raised → Locals → Type 0
  Stop = Stops (env.activity == "analysis")

  abbrev Done : ℕ → Locals → Type 0
  Done = Converted (env.activity == "analysis")

  keep_pre_results-Triple :
      (pre : Results)
      → Triple {R = R} {W = W} Stop (At in_pre) (keep_pre_results env pre) (λ u. At (with_pre pre))
  unfolding keep_pre_results
  keep_pre_results-Triple pre =
      read_locals-bind (λ l. set_locals (record l { pre_results = some pre }))
        (set_locals-Triple Stop (At in_pre) (with_pre pre))

  keep_post_results-Triple :
      (pre post : Results)
      → Triple {R = R} {W = W} Stop
          (At (in_post pre))
          (keep_post_results env post)
          (λ u. At (with_post pre post))
  unfolding keep_post_results
  keep_post_results-Triple pre post =
      read_locals-bind (λ l. set_locals (record l { post_results = some post }))
        (set_locals-Triple Stop (At (in_post pre)) (with_post pre post))

  convert_system-Triple :
      (pre : Results)
      → env.activity == "analysis" ≡ false
      → Triple Stop (At (with_pre pre)) (convert_system env pre) Done
  unfolding convert_system conversion_report
  convert_system-Triple pre a =
      bind-Triple
        (raise_for_skipped_failures-Triple Stop pre (with_pre pre) (λ f. inhibited_pre pre f a))
        λ u. fact-Triple λ f.
          bind-Triple (call-At (env.print_summary pre false) λ e. behind_pre_actions pre e a) λ u.
            bind-Triple (call-At env.ask_to_continue λ e. behind_pre_actions pre e a) λ u.
              bind-Triple (enter-Triple Stop post_ponr_changes (with_pre pre)) λ u.
                bind-Triple
                  (call_noted-At post_actions_run env.run_post_actions λ e. in_post_actions pre e a)
                  λ post. bind-Triple (keep_post_results-Triple pre post) λ u.
                    bind-Triple
                      (raise_for_skipped_failures-Triple Stop post (with_post pre post)
                        λ f. inhibited_post pre post f a)
                      λ u. fact-Triple λ g.
                        bind-Triple
                          (call-At (env.print_summary post true)
                            λ e. behind_post_actions pre post e a)
                          λ u.
                            bind-Triple
                              (call-At env.restart_system λ e. behind_post_actions pre post e a)
                              λ u. record {
                                ends = λ s h. subst (Done 0) (sym h) (converted pre post f g a);
                              }

  -- The whole of the `try` clause, where the command line asked for an analysis or did not.
  pub try_conversion-Triple : Triple Stop (At (entered post_cli start)) (try_conversion env) Done
  unfolding try_conversion
  try_conversion-Triple = bind-Triple (enter-Triple Stop prepare (entered post_cli start)) λ u.
      bind-Triple (call-At env.perform_boilerplate λ e. in_preparation e) λ u.
        bind-Triple (call-At env.gather_system_info λ e. in_preparation e) λ u.
          bind-Triple (call-At env.prepare_system λ e. in_preparation e) λ u.
            bind-Triple (enter-Triple Stop pre_ponr_changes in_prepare) λ u.
              bind-Triple (call_control-At env.run_pre_actions λ e. in_pre_actions e) λ pre.
                bind-Triple (keep_pre_results-Triple pre) λ u.
                  if-Triple (env.activity == "analysis")
                    (λ a. bind-Triple (enter-Triple Stop analyze_exit (with_pre pre)) λ u. record {
                      ends = λ s h. subst (Stop analysis_done) (sym h) (behind_analysis pre a);
                    })
                    (λ a. convert_system-Triple pre a)
