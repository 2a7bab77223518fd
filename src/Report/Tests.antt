-- ===== src/Report/Tests.antt =====
-- The report on an action that failed with a warning (convert2rhel/actions/report.py).
use convert2rhel.Prelude.{
  map, ℕ, String, true, false, not, ◌||◌, List, [], ◌∷◌, Perm, ◌≡◌, refl, all, contains, filter,
  leb, nat_eq, string_eq, pair_eq, sorted, insert_sorted, Ascending, Result, ok, raise,
}
use convert2rhel.Prelude.Dict
use convert2rhel.Actions.Message.{Message, status_code, status_names}
use convert2rhel.Actions.Outcomes.{Results, find_actions_of_severity}
use convert2rhel.Actions.Stage.{format_action_status_message}
use convert2rhel.Report.{
  Combined, Line, combine_messages, combine, get_combined_results_and_message,
  format_report_section_heading, entry_lines, summary_lines, selected, summary, txt_entry,
  txt_entries, summary_as_txt, collected_levels, is_valid_level, first_level,
  find_highest_report_level,
}
use convert2rhel.Report.Highest.{find_highest_report_level-highest}
use convert2rhel.Report.Sections.{entry_levels, as_results, entries, shown, summary-sorted}

program : Unit {0}
unfolding Dict.get_item Dict.insert status_code find_actions_of_severity
    format_action_status_message combine_messages combine get_combined_results_and_message
    format_report_section_heading entry_lines summary_lines summary txt_entry txt_entries
    summary_as_txt collected_levels first_level find_highest_report_level filter sorted
    insert_sorted nat_eq string_eq pair_eq entry_levels
program = tt

abbrev message : String → ℕ → Message
message id level = record {
  id = id;
  level = level;
  title = "Title";
  description = "Description";
  diagnosis = "";
  remediations = "";
  variables = [];
}

abbrev results : Results
results =
    ("ACTION", record { messages = message "ODD" 51 ∷ []; result = message "BROKEN" 202 }) ∷ []

abbrev lines_of : Result (List Line) → List Line
lines_of (ok lines) = lines
lines_of (raise e) = []

abbrev lines : List Line
lines = lines_of (summary (λ level text. text) results false)

test_levels : entry_levels lines ≡ 51 ∷ 202 ∷ []
unfolding program
test_levels = refl

find_highest_report_level-highest_test :
    (code : ℕ) × ((Dict.get_item code status_names ≡ ok "ERROR")
      × ((contains (collected_levels results) code ≡ true)
          × (all (λ l. leb l code || not (is_valid_level l)) (collected_levels results) ≡ true)))
unfolding program
find_highest_report_level-highest_test = find_highest_report_level-highest results "ERROR" refl

summary-sorted_example :
    (chosen : Combined) × ((selected results false ≡ ok chosen)
      × (Ascending leb (entry_levels lines)
          × Perm (as_results (entries lines)) (map (shown (λ level text. text)) chosen)))
unfolding program
summary-sorted_example = summary-sorted (λ level text. text) results false lines refl
