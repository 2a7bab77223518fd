-- ===== src/Report.antt =====
-- The reports on the results (convert2rhel/actions/report.py). How a text is wrapped and coloured,
-- and what is written to files, are left out: `render` stands for both at a level.
pub mod Highest
pub mod Sections
mod Tests
use convert2rhel.Prelude.{
  ℕ, String, ◌<>◌, Bool, true, false, Option, none, some, List, [], ◌∷◌, ◌++◌, map, filter,
  contains, leb, ◌==◌, nat_eq, string_eq, pair_eq, if◌then◌else◌, Result, ok, raise, index_error,
  ◌>>=◌, sorted,
}
use convert2rhel.Prelude.Dict
use convert2rhel.Prelude.Dict.{Dict}
use convert2rhel.Actions.Message.{Message, status_names}
use convert2rhel.Actions.Outcomes.{Results, find_actions_of_severity}
use convert2rhel.Actions.Stage.{format_action_status_message}

-- A result or a message without its id, which is part of its key.
pub record Entry : Type 0 where
  pub level : ℕ
  pub title : String
  pub description : String
  pub remediations : String
  pub diagnosis : String
  pub variables : Dict String String

abbrev pub Combined : Type 0
Combined = Dict (String × String) Entry

abbrev pub to_entry : Message → Entry
to_entry m = record {
  level = m.level;
  title = m.title;
  description = m.description;
  remediations = m.remediations;
  diagnosis = m.diagnosis;
  variables = m.variables;
}

unfoldable pub combine_messages : String → List Message → Combined → Combined
unfolding Dict.insert
combine_messages action_id [] d = d
combine_messages action_id (m ∷ messages) d =
    combine_messages action_id messages (Dict.insert (action_id, m.id) (to_entry m) d)

unfoldable pub combine : Results → Combined → Combined
unfolding combine_messages Dict.insert
combine [] d = d
combine ((action_id, data') ∷ results) d = combine results (
    combine_messages action_id data'.messages
      (Dict.insert (action_id, data'.result.id) (to_entry data'.result) d))

unfoldable pub get_combined_results_and_message : Results → Combined
unfolding combine
get_combined_results_and_message results = combine results []

abbrev pub level_for_combined_action_data : Entry → ℕ
level_for_combined_action_data e = e.level

-- `STATUS_HEADER`
abbrev pub status_headers : Dict ℕ String
status_headers =
    (0, "Success (No action required)")
    ∷ (25, "Info (No action required)")
    ∷ (51, "Warning (Review and fix if needed)")
    ∷ (101, "Skip (Could not be checked due to other failures)")
    ∷ (152, "Overridable (Review and either fix or ignore the failure)")
    ∷ (202, "Error (Must fix before conversion)")
    ∷ []

unfoldable pub format_report_section_heading : ℕ → Result String
unfolding Dict.get_item
format_report_section_heading code = do
  header ← Dict.get_item code status_headers
  ok ("========== " <> (header <> " =========="))

-- A line of the report: the empty line, a heading or an entry, with the level that it is for.
pub data Line : Type 0 where
  blank : Line
  heading : ℕ → String → Line
  entry : ℕ → String → Line
  no_problems : Line

abbrev pub is_new_level : Option ℕ → ℕ → Bool
is_new_level none level = true
is_new_level (some last) level = if last == level then false else true

abbrev pub by_level : (String × String) × Entry → (String × String) × Entry → Bool
by_level (k, a) (j, b) = leb a.level b.level

abbrev pub selected : Results → Bool → Result Combined
selected results include_all_reports =
    let combined = get_combined_results_and_message results in
    if include_all_reports
    then ok combined
    else find_actions_of_severity combined "WARNING" level_for_combined_action_data

module _ (render : ℕ → String → String) where
  unfoldable pub entry_lines : Option ℕ → (String × String) → Entry → Result (List Line)
  entry_lines last (action_id, id) e = do
    text ←
        format_action_status_message e.level action_id id e.title e.description e.diagnosis
          e.remediations
    head ← format_report_section_heading e.level
    ok (
        if is_new_level last e.level
        then blank ∷ heading e.level head ∷ entry e.level (render e.level text) ∷ []
        else entry e.level (render e.level text) ∷ [])

  -- The loop of `_summary`, with `last_level`.
  unfoldable pub summary_lines : Option ℕ → Combined → Result (List Line)
  summary_lines last [] = ok []
  summary_lines last ((key, e) ∷ entries) = do
    lines ← entry_lines last key e
    more ← summary_lines (some e.level) entries
    ok (lines ++ more)

  -- `_summary`
  unfoldable pub summary : Results → Bool → Result (List Line)
  summary results include_all_reports = do
    chosen ← selected results include_all_reports
    lines ← summary_lines none (sorted by_level chosen)
    ok (elim chosen [ [] ↦ lines ++ (no_problems ∷ []) | _ ∷ _ ↦ lines ])

-- The entries of `summary_as_txt`, worst first, before they are coloured, joined and written.
unfoldable pub txt_entry : (String × String) → Entry → Result String
txt_entry (action_id, id) e =
    format_action_status_message e.level action_id id e.title e.description e.diagnosis
      e.remediations

unfoldable pub txt_entries : Combined → Result (List String)
txt_entries [] = ok []
txt_entries ((key, e) ∷ entries) = do
  text ← txt_entry key e
  more ← txt_entries entries
  ok (text ∷ more)

abbrev by_level_reverse : (String × String) × Entry → (String × String) × Entry → Bool
by_level_reverse (k, a) (j, b) = leb b.level a.level

unfoldable pub summary_as_txt : Results → Result (List String)
summary_as_txt results = do
  chosen ←
      find_actions_of_severity (get_combined_results_and_message results) "INFO"
        level_for_combined_action_data
  txt_entries (sorted by_level_reverse chosen)

-- The levels of the results and messages, as `find_highest_report_level` collects them.
unfoldable pub collected_levels : Results → List ℕ
collected_levels [] = []
collected_levels ((action_id, data') ∷ results) =
    data'.result.level ∷ (map (λ (m : Message). m.level) data'.messages ++ collected_levels results)

abbrev pub descending : ℕ → ℕ → Bool
descending a b = leb b a

abbrev pub is_valid_level : ℕ → Bool
is_valid_level level = contains (0 ∷ 25 ∷ 51 ∷ 101 ∷ 152 ∷ 202 ∷ []) level

unfoldable pub first_level : List ℕ → Result ℕ
first_level [] = raise (index_error "list index out of range")
first_level (level ∷ levels) = ok level

unfoldable pub find_highest_report_level : Results → Result String
find_highest_report_level results = do
  highest ← first_level (sorted descending (filter is_valid_level (collected_levels results)))
  Dict.get_item highest status_names
