-- ===== src/Actions/Stage.antt =====
-- `Stage.run` and `Stage.check_dependencies` (convert2rhel/actions/__init__.py). A stage with the
-- stages that `next_stage` links behind it is a list of stages, the one that runs first at its
-- head. What is logged is left out; the text of an exception and its traceback are parameters.
pub mod Visit
pub mod Ran
pub mod Loop
pub mod Chain
pub mod Laws
pub mod Blind
pub mod Precheck
use convert2rhel.Prelude.{
  ℕ, String, ◌<>◌, Bool, true, false, Option, none, some, List, [], ◌∷◌, ◌++◌, map, filter, length,
  ltb, leb, contains, string_eq, nat_eq, ◌==◌, has_items, truthy, if◌then◌else◌, Exn, is_caught,
  attribute_error, action_error, Result, ok, raise, ◌>>=◌,
}
use convert2rhel.Prelude.Dict
use convert2rhel.Utils.Format.{format_sequence_as_message}
use convert2rhel.Actions.Message.{Args, Message, status_names}
use convert2rhel.Actions.Action.{ActionClass, Action, Outcome, new_action, set_result, run}
use convert2rhel.Actions.Order.{ids, Resolution, resolve_action_order}

-- What the program gets of an exception for a report.
pub record Traces : Type 0 where
  pub text : Exn → String
  pub traceback : Exn → String

abbrev or_na : String → String
or_na s = if truthy s then s else "N/A"

-- `format_action_status_message`, over the fields of the result that it reads
unfoldable pub format_action_status_message :
    (status_code : ℕ) (action_id id title description diagnosis remediations : String)
    → Result String
unfolding Dict.get_item
format_action_status_message status_code action_id id title description diagnosis remediations = do
  level_name ← Dict.get_item status_code status_names
  let start = "(" <> (level_name <> (") " <> (action_id <> ("::" <> (id <> " -")))))
  ok (
      if status_code == 0
      then start <> " N/A"
      else start
        <> (" "
            <> (title
                <> ("\n Description: "
                    <> (or_na description
                        <> ("\n Diagnosis: "
                            <> (or_na diagnosis
                                <> ("\n Remediations: " <> (or_na remediations <> "\n")))))))))

module _ (W : Type 0) where
  pub record Stage : Type 0 where
    pub stage_name : String
    pub actions : List (ActionClass W)
    pub has_run : Bool

  -- `FinishedActions`
  pub record Finished : Type 0 where
    pub successes : List (Action W)
    pub failures : List (Action W)
    pub skips : List (Action W)

  -- The variables of the loop of `Stage.run`.
  pub record Progress : Type 0 where
    pub finished : Finished
    pub failed_ids : List String

-- The result of an action that is skipped.
abbrev pub skip_args : List String → Args
skip_args failed_deps = record {
  level = "SKIP";
  id = some "SKIP";
  title = some "Skipped action";
  description = some "This action was skipped due to another action failing.";
  diagnosis = some (
      "Skipped because "
      <> (format_sequence_as_message failed_deps
          <> (if ltb 1 (length failed_deps)
              then " were not successful"
              else " was not successful")));
  remediations = some (
      "Please ensure that the "
      <> (format_sequence_as_message failed_deps
          <> " check passes so that this Action can evaluate your system"));
  variables = none;
}

-- The result of an action that raised an exception.
abbrev pub unexpected_args : Traces → Exn → Args
unexpected_args traces e = record {
  level = "ERROR";
  id = some "UNEXPECTED_ERROR";
  title = some "Unhandled exception caught";
  description = some (
      "Unhandled exception was caught: "
      <> (traces.text e
          <> ("\nPlease file a bug at https://issues.redhat.com/ to have this fixed or a specific error message added.\nTraceback: "
              <> traces.traceback e)));
  diagnosis = some "";
  remediations = some "";
  variables = none;
}

module _ {W : Type 0} where
  abbrev pub all_finished : Finished W → List (Action W)
  all_finished f = f.successes ++ (f.failures ++ f.skips)

  abbrev pub finished_ids : Finished W → List String
  finished_ids f = map (λ a. a.class.id) (all_finished f)

  -- The lists that `Stage.run` starts from where none are given.
  abbrev pub no_finished : Finished W
  no_finished = record { successes = []; failures = []; skips = [] }

  -- The action is skipped.
  unfoldable pub skip : ActionClass W → List String → Progress W → Result (Progress W)
  skip c failed_deps p = do
    a ← set_result (skip_args failed_deps) (new_action c)
    ok (record {
      finished = record p.finished { skips = p.finished.skips ++ (a ∷ []) };
      failed_ids = c.id ∷ p.failed_ids;
    })

  -- The two tests on the level behind a run. The message is only logged.
  unfoldable pub categorize : Action W → Progress W → Result (Progress W)
  unfolding format_action_status_message
  categorize a p = elim a.result [
    | none ↦ raise attribute_error
    | some m ↦
        if leb m.level 51
        then ok (record p {
          finished = record p.finished { successes = p.finished.successes ++ (a ∷ []) };
        })
        else do
          message ←
              format_action_status_message m.level a.class.id m.id m.title m.description m.diagnosis
                m.remediations
          ok (record {
            finished = record p.finished { failures = p.finished.failures ++ (a ∷ []) };
            failed_ids = a.class.id ∷ p.failed_ids;
          })
  ]

module _ {W : Type 0} (traces : Traces) where
  -- `except (Exception, SystemExit)` round the run of an action
  unfoldable pub handle : Result (Unit {0}) → Action W → Result (Action W)
  handle (ok u) a = ok a
  handle (raise e) a = if is_caught e then set_result (unexpected_args traces e) a else raise e

  -- The action is run.
  unfoldable pub attempt : ActionClass W → Progress W → W → Result (Progress W) × W
  attempt c p w =
      let (outcome, a, w') = run (new_action c) w in (handle outcome a >>= λ b. categorize b p, w')

  abbrev pub failed_dependencies : ActionClass W → Progress W → List String
  failed_dependencies c p = filter (contains p.failed_ids) c.dependencies

  -- One round of the loop.
  unfoldable pub visit : ActionClass W → Progress W → W → Result (Progress W) × W
  visit c p w =
      let failed_deps = failed_dependencies c p in
      if has_items failed_deps then (skip c failed_deps p, w) else attempt c p w

  unfoldable pub visit_all : List (ActionClass W) → Progress W → W → Result (Progress W) × W
  visit_all [] p w = (ok p, w)
  visit_all (c ∷ cs) p w =
      let (r, w') = visit c p w in elim r [ ok q ↦ visit_all cs q w' | raise e ↦ (raise e, w') ]

  -- The loop, over a generator that may raise behind its last item.
  unfoldable pub run_actions : Resolution W → Progress W → W → Result (Progress W) × W
  run_actions o p w =
      let (r, w') = visit_all o.yielded p w in
      elim o.error [ none ↦ (r, w') | some e ↦ (elim r [ ok q ↦ raise e | raise x ↦ raise x ], w') ]

  -- `Stage.run`, with the stages as it leaves them.
  unfoldable pub run_stages :
      List (Stage W) → Finished W → W → Result (Finished W) × List (Stage W) × W
  run_stages [] f w = (ok f, [], w)
  run_stages (s ∷ stages) f w = elim s.has_run [
    | true ↦ (raise action_error, s ∷ stages, w)
    | false ↦
        let (r, w') =
          run_actions (resolve_action_order s.actions (finished_ids f))
            (record { finished = f; failed_ids = [] }) w in
        let s' = record s { has_run = true } in
        elim r [
          | ok p ↦ let (x, stages', w'') = run_stages stages p.finished w' in (x, s' ∷ stages', w'')
          | raise e ↦ (raise e, s' ∷ stages, w')
        ]
  ]

-- `Stage.check_dependencies`: the error that it raises, if any. A later stage is told only of the
-- actions of the stage before it.
unfoldable pub check_dependencies : {W : Type 0} → List (Stage W) → List String → Option Exn
check_dependencies [] previous = none
check_dependencies (s ∷ stages) previous =
    let o = resolve_action_order s.actions previous in
    elim o.error [ none ↦ check_dependencies stages (ids o.yielded) | some e ↦ some e ]
