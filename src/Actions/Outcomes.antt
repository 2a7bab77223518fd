-- ===== src/Actions/Outcomes.antt =====
-- The results of the actions as the rest of the program sees them: `parse_action_results`,
-- `find_actions_of_severity`, and the functions that run the stages of a conversion
-- (convert2rhel/actions/__init__.py).
pub mod Laws
use convert2rhel.Prelude.{
  ℕ, String, Option, none, some, List, [], ◌∷◌, ◌++◌, leb, string_eq, if◌then◌else◌, Exn, Result,
  ok, raise, attribute_error, system_exit, ◌>>=◌,
}
use convert2rhel.Prelude.Dict
use convert2rhel.Prelude.Dict.{Dict}
use convert2rhel.Actions.Message.{Message, status_code}
use convert2rhel.Actions.Action.{Action}
use convert2rhel.Actions.Stage.{
  Traces, Stage, Finished, no_finished, all_finished, run_stages, check_dependencies,
}

-- What the results hold of one action.
pub record ActionData : Type 0 where
  pub messages : List Message
  pub result : Message

abbrev pub Results : Type 0
Results = Dict String ActionData

abbrev pub level_for_raw_action_data : ActionData → ℕ
level_for_raw_action_data d = d.result.level

module _ {W : Type 0} where
  -- The loop of `parse_action_results`, over what `itertools.chain` gives.
  unfoldable pub add_results : List (Action W) → Results → Result Results
  unfolding Dict.insert
  add_results [] d = ok d
  add_results (a ∷ actions) d = elim a.result [
    | none ↦ raise attribute_error
    | some m ↦
        add_results actions
          (Dict.insert a.class.id (record { messages = a.messages; result = m }) d)
  ]

  unfoldable pub parse_action_results : Finished W → Result Results
  unfolding add_results
  parse_action_results f = add_results (all_finished f) []

  -- `run_pre_actions` and `run_post_actions`, over the two stages of each. An unresolvable
  -- dependency is logged as critical, which exits. Of the stages only the marks that they ran
  -- are kept behind the call.
  unfoldable pub run_two_stages : Traces → Stage W → Stage W → W → Result Results × W
  unfolding run_stages check_dependencies parse_action_results
  run_two_stages traces first second w =
      let stages = first ∷ second ∷ [] in
      elim (check_dependencies stages []) [
        | some e ↦ (raise system_exit, w)
        | none ↦
            let (r, stages', w') = run_stages traces stages no_finished w in
            (r >>= parse_action_results, w')
      ]

module _ {K V : Type 0} where
  -- `STATUS_CODE[severity]` is read once for each entry.
  unfoldable pub find_actions_of_severity : Dict K V → String → (V → ℕ) → Result (List (K × V))
  unfolding status_code
  find_actions_of_severity [] severity key = ok []
  find_actions_of_severity ((k, v) ∷ entries) severity key = do
    code ← status_code severity
    more ← find_actions_of_severity entries severity key
    ok (if leb code (key v) then (k, v) ∷ more else more)
