-- ===== src/Main/Handlers.antt =====
-- The locals behind the handlers of exceptions and the `finally` clause (convert2rhel/main.py).
use convert2rhel.Prelude.{
  String, attribute_error, Bool, true, false, Option, none, some, has_items, ◌≡◌, refl, subst, sym,
  Exn, if◌then◌else◌,
}
use convert2rhel.Phase.{
  Phase, post_cli, prepare, pre_ponr_changes, analyze_exit, post_ponr_changes, rollback,
}
use convert2rhel.Backup.{rollback_failed}
use convert2rhel.Actions.Outcomes.{Results}
use convert2rhel.Main.Steps.{
  changes_restored, Raised, exception, Locals, Environment, Code, ◌>>◌, pure, call,
}
use convert2rhel.Main.Triples.{
  Triple, entered, bind-Triple, call-At, call_noted-At, noted, read_locals-bind,
  read_control-Triple, enter-Triple, if-Triple, At,
}
use convert2rhel.Main.{
  failure, execution_phase, pick_conversion_results, report_mapping, conversion_report,
  pop_all_or_none, rollback_changes, provide_status_after_rollback, update_facts, handle_in_phase,
  handle_main_exceptions, write_reports, write_results, write_in_phase,
}

-- The locals behind a rollback.
abbrev pub rolled_back : Locals → Locals
rolled_back l = noted changes_restored (entered rollback l)

-- The locals behind the handling of an exception of a phase.
abbrev pub after_phase : Option Phase → Locals → Locals
after_phase (some pre_ponr_changes) l = rolled_back l
after_phase _ l = l

abbrev pub after_handling : Locals → Locals
after_handling l = after_phase (execution_phase l.phases) l

module _ {R W : Type 0} (env : Environment R W) (X : Raised → Locals → Type 0) (l : Locals)
    (x : (e : Exn) → X (exception e) l) where
  abbrev Stays : Code R W (Unit {0}) → Type 0
  Stays m = Triple X (At l) m (λ u. At l)

  Stays-pure : Stays (pure tt)
  Stays-pure = record { ends = λ s h. h }

  pub update_facts-Triple : Stays (update_facts env)
  unfolding update_facts
  update_facts-Triple =
      bind-Triple (call-At env.should_subscribe x)
        λ b. if-Triple b (λ h. Stays-pure) (λ h. call-At env.update_rhsm_custom_facts x)

  pub conversion_report-Triple :
      (results : Option Results) (include_all : Bool)
      → Stays (conversion_report env results include_all)
  unfolding conversion_report
  conversion_report-Triple none include_all = record {
    ends = λ s h. subst (X (exception attribute_error)) (sym h) (x attribute_error);
  }
  conversion_report-Triple (some r) include_all = call-At (env.print_summary r include_all) x

  pub provide_status-Triple :
      (results : Option Results) (include_all : Bool)
      → Stays (provide_status_after_rollback env results include_all)
  unfolding provide_status_after_rollback
  provide_status-Triple none include_all =
      bind-Triple (read_control-Triple X (At l))
        λ c. if-Triple (rollback_failed c) (λ h. Stays-pure) (λ h. Stays-pure)
  provide_status-Triple (some r) include_all = bind-Triple (read_control-Triple X (At l)) λ c.
      if-Triple (rollback_failed c) (λ h. Stays-pure)
        (λ h.
          if-Triple (has_items r) (λ k. conversion_report-Triple (some r) include_all)
            (λ k. Stays-pure))

  write_results-Triple :
      (results : Results) (files : Option (String × String))
      → Stays (write_results env results files)
  unfolding write_results
  write_results-Triple r none = Stays-pure
  write_results-Triple r (some (json, txt)) =
      if-Triple (has_items r)
        (λ h. bind-Triple (call-At (env.write_json r json) x) λ u. call-At (env.write_txt r txt) x)
        (λ h. Stays-pure)

  write_in_phase-Triple :
      (results : Option Results) (p : Option Phase) → Stays (write_in_phase env results p)
  unfolding write_in_phase
  write_in_phase-Triple none p = Stays-pure
  write_in_phase-Triple (some r) none = Stays-pure
  write_in_phase-Triple (some r) (some p) = write_results-Triple r (report_mapping p)

  pub write_reports-Triple : Stays (write_reports env)
  unfolding write_reports
  write_reports-Triple = bind-Triple (read_control-Triple X (At l)) λ c.
      read_locals-bind
        (λ l.
          if rollback_failed c
          then pure tt
          else write_in_phase env (pick_conversion_results l) (execution_phase l.phases))
        (if-Triple (rollback_failed c) (λ h. Stays-pure)
          (λ h. write_in_phase-Triple (pick_conversion_results l) (execution_phase l.phases)))

  pub rollback_changes-Triple :
      ((e : Exn) → X (exception e) (rolled_back l))
      → Triple X (At l) (rollback_changes env) (λ u. At (rolled_back l))
  unfolding rollback_changes
  rollback_changes-Triple y =
      bind-Triple (enter-Triple X rollback l)
        λ u. call_noted-At changes_restored (pop_all_or_none env) y

-- The handler in a phase returns behind the rollback where the phase is before the point of no
-- return, and where it started elsewhere.
module _ {R W : Type 0} (env : Environment R W) (X : Raised → Locals → Type 0) (l : Locals)
    (x : (e : Exn) → X (exception e) l) where
  pub handle_in_phase-Triple :
      (p : Option Phase) (results : Option Results)
      → ((e : Exn) → X (exception e) (after_phase p l))
      → Triple X (At l) (handle_in_phase env p results) (λ u. At (after_phase p l))
  unfolding handle_in_phase
  handle_in_phase-Triple none results y = Stays-pure env X l x
  handle_in_phase-Triple (some post_cli) results y = Stays-pure env X l x
  handle_in_phase-Triple (some prepare) results y = Stays-pure env X l x
  handle_in_phase-Triple (some pre_ponr_changes) results y =
      bind-Triple (update_facts-Triple env X l x) λ u.
        bind-Triple (rollback_changes-Triple env X l x y)
          λ u. provide_status-Triple env X (rolled_back l) y results true
  handle_in_phase-Triple (some analyze_exit) results y = Stays-pure env X l x
  handle_in_phase-Triple (some post_ponr_changes) results y =
      bind-Triple (call-At env.update_rhsm_custom_facts x)
        λ u. conversion_report-Triple env X l x results true
  handle_in_phase-Triple (some rollback) results y = Stays-pure env X l x

  pub handle_main_exceptions-Triple :
      ((e : Exn) → X (exception e) (after_handling l))
      → Triple X (At l) (handle_main_exceptions env) (λ c l'. (l' ≡ after_handling l) × (c ≡ 1))
  unfolding handle_main_exceptions
  handle_main_exceptions-Triple y =
      read_locals-bind
        (λ l.
          call (env.finish_collection false)
          >> (handle_in_phase env (execution_phase l.phases) (pick_conversion_results l)
              >> pure failure))
        (bind-Triple (call-At (env.finish_collection false) x) λ u.
          bind-Triple
            (handle_in_phase-Triple (execution_phase l.phases) (pick_conversion_results l) y)
            λ u. record { ends = λ s h. (h, refl) })
