-- ===== src/Main/Tests.antt =====
-- Runs on a world that counts, with one change to undo (convert2rhel/main.py).
use convert2rhel.Prelude.{
  ℕ, ◌+◌, ◌==◌, Option, none, some, if◌then◌else◌, String, true, false, [], ◌∷◌, ◌≡◌, ◌≢◌, refl,
  Result, ok, raise, keyboard_interrupt, nat_eq, string_eq,
}
use convert2rhel.Prelude.Dict
use convert2rhel.Phase.{get, has, next_phase, set_current, set_last_stage, same_phase}
use convert2rhel.Backup.{
  Restorable, new_control, pop_all, pop_each, rollback_failed, failure_message,
}
use convert2rhel.Actions.Message.{Message, status_code}
use convert2rhel.Actions.Outcomes.{Results, find_actions_of_severity}
use convert2rhel.Main.Locked.{main, guarded, main-respects_lock, main-releases_lock}
use convert2rhel.Applock.{
  Machine, Text, number, is_stale, pid_exists, try_to_lock, try_create, unlink, unlock,
}
use convert2rhel.Main.Steps.{
  Code, returned, State, Environment, ◌>>=◌, call, call_control, call_noted, read_locals,
  set_locals, read_control, enter_locals, enter,
}
use convert2rhel.Main.{
  execution_phase, pick_conversion_results, report_mapping, get_failed_actions,
  raise_for_skipped_failures, conversion_report, pop_all_or_none, rollback_changes,
  provide_status_after_rollback, update_facts, handle_in_phase, handle_main_exceptions,
  handle_inhibitors_found_exception, report_analysis, handle_analyze_exit, handle, write_results,
  write_in_phase, write_reports, keep_pre_results, keep_post_results, convert_system,
  try_conversion, finally_write, with_handlers, main_locked,
}
use convert2rhel.Main.Body.{start, in_post}
use convert2rhel.Main.Laws.{explains, is_safe, called}
use convert2rhel.Main.Exit.{main_locked-is_safe, late_exception_gives_no_code}

program : Unit {0}
unfolding get has next_phase set_current set_last_stage same_phase pop_all pop_each rollback_failed
    failure_message status_code find_actions_of_severity ◌>>=◌ call call_control read_locals
    set_locals read_control enter_locals enter execution_phase pick_conversion_results
    report_mapping get_failed_actions raise_for_skipped_failures conversion_report pop_all_or_none
    rollback_changes provide_status_after_rollback update_facts handle_in_phase
    handle_main_exceptions handle_inhibitors_found_exception report_analysis handle_analyze_exit
    handle write_results write_in_phase write_reports keep_pre_results keep_post_results
    convert_system try_conversion finally_write with_handlers main_locked Dict.get_item string_eq
    nat_eq explains is_safe called call_noted is_stale pid_exists try_to_lock try_create unlink
    unlock
program = tt

-- A change is the number from before it.
abbrev numbers : Restorable ℕ ℕ
numbers = record {
  same = λ a b. false;
  enable = λ c w. (ok tt, w, w + 100);
  restore = λ c w. (ok tt, c, c);
  class_name = λ c. "Change";
  describe = λ e. "failed";
}

abbrev message : ℕ → Message
message level = record {
  id = "RESULT";
  level = level;
  title = "";
  description = "";
  diagnosis = "";
  remediations = "";
  variables = [];
}

abbrev results : ℕ → Results
results level = ("ACTION", record { messages = []; result = message level }) ∷ []

abbrev passes : ℕ → Result (Unit {0}) × ℕ
passes w = (ok tt, w)

abbrev counts : Results → ℕ → Result (Unit {0}) × ℕ
counts r w = (ok tt, w + 1)

-- The actions make one change each, and have the levels given.
abbrev environment : String → ℕ → Result Results → Environment ℕ ℕ
environment activity level post = record {
  restorable = numbers;
  activity = activity;
  initialize_file_logging = passes;
  perform_boilerplate = passes;
  gather_system_info = passes;
  prepare_system = passes;
  run_pre_actions =
      λ c w. (ok (results level), record c { restorables = w ∷ c.restorables }, w + 100);
  ask_to_continue = passes;
  run_post_actions = λ c w. (post, c, w + 1000);
  restart_system = passes;
  finish_collection = λ success w. passes w;
  should_subscribe = λ w. (ok false, w);
  update_rhsm_custom_facts = passes;
  print_summary = λ r all w. passes w;
  write_json = λ r file w. counts r w;
  write_txt = λ r file w. counts r w;
}

abbrev fresh : State ℕ ℕ
fresh = record { locals = start; control = new_control; world = 7 }

-- An analysis undoes its change and writes its two files; a conversion keeps it.
test_analysis : (main_locked (environment "analysis" 0 (ok [])) fresh).1.world ≡ 9
unfolding program
test_analysis = refl

test_conversion : (main_locked (environment "conversion" 0 (ok (results 0))) fresh).1.world ≡ 1109
unfolding program
test_conversion = refl

-- An action that fails before the point of no return gives 2, and one behind it too.
test_inhibited : (main_locked (environment "conversion" 202 (ok [])) fresh).0 ≡ returned 2
unfolding program
test_inhibited = refl

test_inhibited_late :
    (main_locked (environment "conversion" 0 (ok (results 202))) fresh).0 ≡ returned 2
unfolding program
test_inhibited_late = refl

main_locked-is_safe_example :
    is_safe false ((main_locked (environment "conversion" 202 (ok [])) fresh).1.locals) ≡ true
unfolding string_eq
main_locked-is_safe_example = main_locked-is_safe (environment "conversion" 202 (ok [])) fresh refl

abbrev late : State ℕ ℕ
late = record { locals = in_post (results 0); control = new_control; world = 107 }

late_exception_gives_no_code_example :
    (handle_main_exceptions (environment "conversion" 0 (raise keyboard_interrupt)) late).0
    ≢ returned 1
late_exception_gives_no_code_example =
    late_exception_gives_no_code (environment "conversion" 0 (raise keyboard_interrupt)) late
      (results 0) 1 refl

abbrev smooth : Environment ℕ ℕ
smooth = environment "conversion" 0 (ok (results 0))

-- The start of the tool passes, on a machine where process 7 is gone.
abbrev set_up : Code ℕ ℕ (Unit {0})
set_up s = (returned tt, s)

abbrev machine : Option Text → Machine
machine file = record {
  file = file;
  alive = λ pid. if pid == 7 then false else true;
  writable = true;
}

main-respects_lock_test :
    main smooth set_up 5 (machine (some (number 6))) fresh
    ≡ (returned 1, machine (some (number 6)), fresh)
unfolding program main guarded
main-respects_lock_test =
    main-respects_lock smooth set_up 5 (machine (some (number 6))) fresh fresh (number 6) refl refl
      refl refl

main-releases_lock_example :
    main smooth set_up 5 (machine (some (number 7))) fresh
    ≡ (returned 0, machine none, (main_locked smooth fresh).1)
unfolding program main guarded
main-releases_lock_example =
    main-releases_lock smooth set_up 5 (machine (some (number 7))) fresh fresh refl refl refl
