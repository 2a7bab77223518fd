-- ===== src/Actions/Tests.antt =====
-- Runs of three actions in a stage, on a world that counts (convert2rhel/actions/__init__.py).
use convert2rhel.Prelude.{
  ℕ, suc, ◌+◌, String, false, none, some, List, [], ◌∷◌, ◌++◌, Perm, ◌≡◌, refl, ◌⊎◌, ◌↔◌, contains,
  mem-contains, has_items, ◌||◌, other, keyboard_interrupt, Result, ok, raise, action_error,
  string_eq, nat_eq, filter, sorted, insert_sorted, arith,
}
use mathlib.Core.List.Perm
use mathlib.Core.List.{Mem, Nodup, Nodup-cons, Nodup-nil}
use convert2rhel.Prelude.Dict
use convert2rhel.Actions.Message.{
  Args, Message, action_message, action_result, message_base, status_code, check_severity,
}
use convert2rhel.Actions.Message.Laws.{IsMessage, IsResult, action_message_iff, action_result_iff}
use convert2rhel.Actions.Action.{
  done, throw, call_set_result, call_add_message, act, ActionClass, new_action, set_result,
  add_message, default_to_success, base_run, run_body, run,
}
use convert2rhel.Actions.Action.Laws.{IsFinished, run-IsFinished, run_again}
use convert2rhel.Actions.Order.{ids, resolve_action_order, resolve_rounds, pass}
use convert2rhel.Actions.Order.Passes.{IsOrdered}
use convert2rhel.Actions.Order.Laws.{resolve-IsOrdered, resolve-perm, IsBlocked, resolve-IsExit}
use convert2rhel.Actions.Order.Complete.{resolve_complete}
use convert2rhel.Actions.Stage.{
  Traces, Stage, Finished, Progress, all_finished, finished_ids, no_finished, skip, categorize,
  handle, attempt, visit, visit_all, run_actions, run_stages, check_dependencies,
  format_action_status_message,
}
use convert2rhel.Actions.Stage.Ran.{Ran, classes}
use convert2rhel.Actions.Stage.Chain.{stage_actions}
use convert2rhel.Actions.Stage.Loop.{visit_all-Ran}
use convert2rhel.Actions.Stage.Laws.{
  run_stages-perm, IsSorted, run_stages-IsSorted, IsSifted, run_stage-IsSifted,
}
use convert2rhel.Actions.Stage.Blind.{run_stage_never_skips}
use convert2rhel.Actions.Stage.Precheck.{run_stages_of_checked}
use convert2rhel.Actions.Outcomes.{
  ActionData, Results, parse_action_results, find_actions_of_severity, level_for_raw_action_data,
}
use convert2rhel.Actions.Outcomes.Laws.{parse_action_results-find}

-- Every definition that a run computes with.
program : Unit {0}
unfolding run_stages run_actions visit_all visit skip attempt handle categorize
    format_action_status_message run base_run run_body default_to_success set_result add_message
    action_result action_message message_base check_severity status_code filter sorted insert_sorted
    resolve_action_order resolve_rounds pass Dict.get_item Dict.insert string_eq nat_eq
    check_dependencies
program = tt

abbrev problem : Args
problem = record {
  level = "ERROR";
  id = some "BROKEN";
  title = some "It is broken";
  description = some "A check found it broken.";
  diagnosis = some "";
  remediations = some "";
  variables = none;
}

abbrev notice : Args
notice = record problem { level = "WARNING"; id = some "ODD" }

-- One action counts, the next depends on it and fails, the last depends on that and is skipped.
abbrev first : ActionClass ℕ
first = record {
  id = "FIRST";
  dependencies = [];
  body = act (λ w. suc w) (λ w. call_add_message notice done);
}

abbrev second : ActionClass ℕ
second = record {
  id = "SECOND";
  dependencies = "FIRST" ∷ [];
  body = call_set_result problem (throw (other "late"));
}

abbrev third : ActionClass ℕ
third = record { id = "THIRD"; dependencies = "SECOND" ∷ []; body = act (λ w. w + 10) (λ w. done) }

abbrev three : List (ActionClass ℕ)
three = third ∷ second ∷ first ∷ []

abbrev in_order : List (ActionClass ℕ)
in_order = first ∷ second ∷ third ∷ []

abbrev traces : Traces
traces = record { text = λ e. "text"; traceback = λ e. "traceback" }

abbrev stage : Stage ℕ
stage = record { stage_name = "prepare"; actions = three; has_run = false }

abbrev finished_of : Result (Finished ℕ) → Finished ℕ
finished_of (ok f) = f
finished_of (raise e) = no_finished

abbrev ended : Finished ℕ
ended = finished_of ((run_stages traces (stage ∷ []) no_finished 0).0)

returns : (run_stages traces (stage ∷ []) no_finished 0).0 ≡ ok ended
unfolding program
returns = refl

-- The order is that of the dependencies, and the last action does not touch the world.
test_order : ids (resolve_action_order three []).yielded ≡ "FIRST" ∷ "SECOND" ∷ "THIRD" ∷ []
unfolding program
test_order = refl

test_finished : finished_ids ended ≡ "FIRST" ∷ "SECOND" ∷ "THIRD" ∷ []
unfolding program
test_finished = refl

test_world : (run_stages traces (stage ∷ []) no_finished 0).2 ≡ 1
unfolding program
test_world = refl

action_message_iff_test : ((m : Message) × (action_message notice ≡ ok m)) ↔ IsMessage notice
action_message_iff_test = action_message_iff notice

action_result_iff_test : ((m : Message) × (action_result problem ≡ ok m)) ↔ IsResult problem
action_result_iff_test = action_result_iff problem

run-IsFinished_test : IsFinished second ((run (new_action second) 0).1)
run-IsFinished_test = run-IsFinished second 0

run_again_test :
    run ((run (new_action first) 0).1) 7 ≡ (raise action_error, (run (new_action first) 0).1, 7)
run_again_test = run_again first 0 7

resolve-IsOrdered_example : IsOrdered [] (resolve_action_order three []).yielded
resolve-IsOrdered_example = resolve-IsOrdered three []

resolve-perm_example :
    let o = resolve_action_order three [] in Perm (o.yielded ++ o.unresolved) three
resolve-perm_example = resolve-perm three []

-- An action whose dependency is missing is left.
resolve-IsExit_example : IsBlocked [] (resolve_action_order (third ∷ first ∷ []) [])
resolve-IsExit_example = resolve-IsExit (third ∷ first ∷ []) []

in_order-IsOrdered : IsOrdered [] in_order
unfolding string_eq
in_order-IsOrdered = (refl, (refl, (refl, tt)))

in_order-perm : Perm in_order three
in_order-perm =
    Perm.trans (Perm.swap second first (third ∷ [])) (
      Perm.trans (Perm.cons second (Perm.swap third first []))
        (Perm.swap third second (first ∷ [])))

resolve_complete_example :
    let o = resolve_action_order three [] in (o.error ≡ none) × Perm o.yielded three
resolve_complete_example = resolve_complete three in_order [] in_order-IsOrdered in_order-perm

visit_all-Ran_example :
    let p : Progress ℕ = record { finished = no_finished; failed_ids = [] } in
    ((visit_all traces in_order p 0).0 ≡ raise keyboard_interrupt)
    ⊎ ((q : Progress ℕ) × ((visit_all traces in_order p 0).0 ≡ ok q) × Ran in_order p q)
visit_all-Ran_example =
    visit_all-Ran traces in_order (record { finished = no_finished; failed_ids = [] }) 0

run_stages-perm_example :
    Perm
      (classes (all_finished ended))
      (classes (all_finished no_finished) ++ stage_actions (stage ∷ []))
run_stages-perm_example = run_stages-perm traces (stage ∷ []) no_finished ended 0 returns

nothing-IsSorted : IsSorted {W = ℕ} no_finished
nothing-IsSorted = record { successes_level = tt; failures_level = tt; skips_level = tt }

run_stages-IsSorted_test : IsSorted ended
run_stages-IsSorted_test =
    run_stages-IsSorted traces (stage ∷ []) no_finished ended 0 nothing-IsSorted returns

absent : (x : String) (xs : List String) → contains xs x ≡ false → ¬ Mem x xs
absent x xs h m = ground (arith, h, mem-contains xs x m)

three-Nodup : Nodup (finished_ids {W = ℕ} no_finished ++ ids stage.actions)
unfolding string_eq
three-Nodup = Nodup-cons.1 (
  absent "THIRD" ("SECOND" ∷ "FIRST" ∷ []) refl,
  Nodup-cons.1
      (absent "SECOND" ("FIRST" ∷ []) refl, Nodup-cons.1 (absent "FIRST" [] refl, Nodup-nil)),
)

run_stage-IsSifted_example : IsSifted stage no_finished ended
run_stage-IsSifted_example = run_stage-IsSifted traces stage no_finished ended 0 three-Nodup returns

run_stages_of_checked_example :
    ((run_stages traces (stage ∷ []) no_finished 0).0 ≡ raise keyboard_interrupt)
    ⊎ ((g : Finished ℕ) × ((run_stages traces (stage ∷ []) no_finished 0).0 ≡ ok g))
unfolding program
run_stages_of_checked_example = run_stages_of_checked traces (stage ∷ []) 0 (refl, tt) refl

parse_action_results-find_test :
    (d : Results) × ((found : List (String × ActionData)) × ((parse_action_results ended ≡ ok d)
        × ((find_actions_of_severity d "SKIP" level_for_raw_action_data ≡ ok found)
            × (has_items found ≡ (has_items ended.failures || has_items ended.skips)))))
parse_action_results-find_test = parse_action_results-find ended run_stages-IsSorted_test

-- The action that fails, in a stage, and the one that depends on it, in the stage behind it.
abbrev later_stage : Stage ℕ
later_stage = record { stage_name = "later"; actions = third ∷ []; has_run = false }

abbrev ended_later : Finished ℕ
ended_later = finished_of ((run_stages traces (later_stage ∷ []) ended 0).0)

run_stage_never_skips_test : ended_later.skips ≡ ended.skips
unfolding program
run_stage_never_skips_test =
    run_stage_never_skips traces later_stage ended ended_later 0 (refl, tt) refl
