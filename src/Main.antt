-- ===== src/Main.antt =====
-- The conversion as a whole (convert2rhel/main.py): `main_locked`, its handlers of exceptions and
-- the rollback. What is logged is left out, and so are the calls in which it asks or prepares the
-- system: they are in the environment.
pub mod Steps
pub mod Triples
pub mod Body
pub mod Handlers
pub mod Laws
pub mod Exit
pub mod Locked
mod Tests
use convert2rhel.Prelude.{
  ℕ, String, Bool, true, false, Option, none, some, List, [], ◌∷◌, has_items, truthy, ◌==◌,
  string_eq, Exn, Result, ok, raise, attribute_error, index_error, if◌then◌else◌,
}
use convert2rhel.Phase.{
  Phase, post_cli, prepare, pre_ponr_changes, analyze_exit, post_ponr_changes, rollback, Phases,
  current_is, same_phase,
}
use convert2rhel.Backup.{Control, pop_all, rollback_failed}
use convert2rhel.Actions.Outcomes.{
  Results, ActionData, find_actions_of_severity, level_for_raw_action_data,
}
use Steps.{
  Raised, analysis_done, inhibited, exception, Ending, returned, raised, Locals, State, Environment,
  ending, Code, ◌>>=◌, ◌>>◌, pure, throw, call, call_control, changes_restored, post_actions_run,
  call_noted, read_locals, set_locals, read_control, enter,
}

-- `ConversionExitCodes`
abbrev pub successful : ℕ
successful = 0

abbrev pub failure : ℕ
failure = 1

abbrev pub inhibitors_found_code : ℕ
inhibitors_found_code = 2

abbrev pub optional_phase : Option Phase → Phase → Bool
optional_phase none q = false
optional_phase (some p) q = same_phase p q

-- The current phase or, in a rollback, the one before it.
unfoldable pub execution_phase : Phases → Option Phase
execution_phase s = elim s.current [
  | none ↦ none
  | some p ↦ if same_phase p rollback then s.last_stage p else some p
]

-- `_pick_conversion_results`
unfoldable pub pick_conversion_results : Locals → Option Results
pick_conversion_results l =
    if current_is post_ponr_changes l.phases then l.post_results else l.pre_results

-- The names of the two files of `_REPORT_MAPPING` for a phase.
unfoldable pub report_mapping : Phase → Option (String × String)
report_mapping analyze_exit = some (
  "/var/log/convert2rhel/convert2rhel-pre-conversion.json",
  "/var/log/convert2rhel/convert2rhel-pre-conversion.txt",
)
report_mapping pre_ponr_changes = some (
  "/var/log/convert2rhel/convert2rhel-pre-conversion.json",
  "/var/log/convert2rhel/convert2rhel-pre-conversion.txt",
)
report_mapping post_ponr_changes = some (
  "/var/log/convert2rhel/convert2rhel-post-conversion.json",
  "/var/log/convert2rhel/convert2rhel-post-conversion.txt",
)
report_mapping _ = none

module _ {R W : Type 0} (env : Environment R W) where
  abbrev Do : Type 0
  Do = Code R W (Unit {0})

  -- `_get_failed_actions`; `None` has no items.
  unfoldable pub get_failed_actions : Option Results → Result (List (String × ActionData))
  get_failed_actions none = raise attribute_error
  get_failed_actions (some results) =
      find_actions_of_severity results "SKIP" level_for_raw_action_data

  -- `_raise_for_skipped_failures`
  unfoldable pub raise_for_skipped_failures : Results → Do
  raise_for_skipped_failures results s = elim (get_failed_actions (some results)) [
    | ok failures ↦ if has_items failures then (raised inhibited, s) else (returned tt, s)
    | raise e ↦ (raised (exception e), s)
  ]

  -- `pre_conversion_report` and `post_conversion_report`
  unfoldable pub conversion_report : Option Results → Bool → Do
  conversion_report none include_all = throw (exception attribute_error)
  conversion_report (some results) include_all = call (env.print_summary results include_all)

  -- The call in `rollback_changes`, where only that there is nothing to restore is handled.
  unfoldable pub pop_all_or_none : Control R → W → Result (Unit {0}) × Control R × W
  pop_all_or_none c w =
      let (r, c', w') = pop_all env.restorable c w in
      elim r [
        | ok _ ↦ (ok tt, c', w')
        | raise (index_error text) ↦
            if text == "No backups to restore"
            then (ok tt, c', w')
            else (raise (index_error text), c', w')
        | raise e ↦ (raise e, c', w')
      ]

  unfoldable pub rollback_changes : Do
  rollback_changes = do enter rollback; call_noted changes_restored pop_all_or_none

  unfoldable pub provide_status_after_rollback : Option Results → Bool → Do
  provide_status_after_rollback pre include_all = do
    c ← read_control
    if rollback_failed c then pure tt else (elim pre [
      | none ↦ pure tt
      | some results ↦
          if has_items results then conversion_report (some results) include_all else pure tt
    ])

  unfoldable pub update_facts : Do
  update_facts = do
    subscribe ← call env.should_subscribe
    if subscribe then pure tt else call env.update_rhsm_custom_facts

  -- The part of `_handle_main_exceptions` that depends on the phase in which it was.
  unfoldable pub handle_in_phase : Option Phase → Option Results → Do
  handle_in_phase none results = pure tt
  handle_in_phase (some pre_ponr_changes) results = do
    update_facts
    rollback_changes
    provide_status_after_rollback results true
  handle_in_phase (some post_ponr_changes) results = do
    call env.update_rhsm_custom_facts
    conversion_report results true
  handle_in_phase (some _) results = pure tt

  unfoldable pub handle_main_exceptions : Code R W ℕ
  handle_main_exceptions = do
    l ← read_locals
    call (env.finish_collection false)
    handle_in_phase (execution_phase l.phases) (pick_conversion_results l)
    pure failure

  unfoldable pub handle_inhibitors_found_exception : Code R W ℕ
  handle_inhibitors_found_exception = do
    c ← read_control
    pure (if rollback_failed c then failure else inhibitors_found_code)

  -- The handler of `_AnalyzeExit` behind its rollback
  unfoldable pub report_analysis : Option Results → Code R W ℕ
  report_analysis pre = do
    provide_status_after_rollback pre true
    c ← read_control
    if rollback_failed c then pure failure else (do
      failed ← call (λ w. (get_failed_actions pre, w))
      pure (if has_items failed then inhibitors_found_code else successful))

  -- The handler of `_AnalyzeExit`
  unfoldable pub handle_analyze_exit : Code R W ℕ
  handle_analyze_exit = do
    call (env.finish_collection true)
    update_facts
    rollback_changes
    l ← read_locals
    report_analysis l.pre_results

  -- The `except` clauses of `main_locked`
  unfoldable pub handle : Raised → Code R W ℕ
  handle analysis_done = handle_analyze_exit
  handle inhibited = do handle_main_exceptions; handle_inhibitors_found_exception
  handle (exception e) = handle_main_exceptions

  -- The results are written for a phase that has files.
  unfoldable pub write_results : Results → Option (String × String) → Do
  write_results results none = pure tt
  write_results results (some (json, txt)) =
      if has_items results
      then (call (env.write_json results json) >> call (env.write_txt results txt))
      else pure tt

  unfoldable pub write_in_phase : Option Results → Option Phase → Do
  write_in_phase none p = pure tt
  write_in_phase (some results) none = pure tt
  write_in_phase (some results) (some p) = write_results results (report_mapping p)

  -- The `finally` clause of `main_locked`
  unfoldable pub write_reports : Do
  write_reports = do
    c ← read_control
    l ← read_locals
    if rollback_failed c
        then pure tt
        else write_in_phase (pick_conversion_results l) (execution_phase l.phases)

  unfoldable pub keep_pre_results : Results → Do
  keep_pre_results results = do
    l ← read_locals
    set_locals (record l { pre_results = some results })

  unfoldable pub keep_post_results : Results → Do
  keep_post_results results = do
    l ← read_locals
    set_locals (record l { post_results = some results })

  -- The `try` clause of `main_locked` behind the analysis
  unfoldable pub convert_system : Results → Code R W ℕ
  convert_system pre = do
    raise_for_skipped_failures pre
    conversion_report (some pre) false
    call env.ask_to_continue
    enter post_ponr_changes
    post ← call_noted post_actions_run env.run_post_actions
    keep_post_results post
    raise_for_skipped_failures post
    conversion_report (some post) true
    call env.restart_system
    pure successful

  -- The `try` clause of `main_locked`
  unfoldable pub try_conversion : Code R W ℕ
  try_conversion = do
    enter prepare
    call env.perform_boilerplate
    call env.gather_system_info
    call env.prepare_system
    enter pre_ponr_changes
    pre ← call_control env.run_pre_actions
    keep_pre_results pre
    if env.activity == "analysis"
        then (enter analyze_exit >> throw analysis_done)
        else convert_system pre

  abbrev pub handled : Ending ℕ → Code R W ℕ
  handled (returned code) = pure code
  handled (raised e) = handle e

  -- An exception of the `finally` clause takes the place of what the code before it ends with.
  unfoldable pub finally_write : Ending ℕ → Code R W ℕ
  finally_write r s = elim ((write_reports s).0) [
    | returned _ ↦ (r, (write_reports s).1)
    | raised e ↦ (raised e, (write_reports s).1)
  ]

  unfoldable pub with_handlers : Code R W ℕ
  with_handlers s =
      let (r, s') = try_conversion s in let (r', s'') = handled r s' in finally_write r' s''

  unfoldable pub main_locked : Code R W ℕ
  main_locked = do enter post_cli; call env.initialize_file_logging; with_handlers
