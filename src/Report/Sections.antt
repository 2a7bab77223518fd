-- ===== src/Report/Sections.antt =====
-- The order of the entries of the summary (convert2rhel/actions/report.py, _summary).
use convert2rhel.Prelude.{
  ℕ, String, Bool, true, List, [], ◌∷◌, ◌++◌, map, Perm, ◌≡◌, refl, ap, ◌∙◌, sym, subst, leb,
  Option, some, none, All, Ascending, IsTotalOrder, sorted, sorted-Ascending, sorted-perm, Result,
  ok, ◌>>=◌, append-nil, bind-eq-ok, arith, Bool-cases, inl, inr,
}
use mathlib.Core.List.Perm
use mathlib.Core.List.{map-append}
use convert2rhel.Actions.Outcomes.{Results}
use convert2rhel.Actions.Stage.{format_action_status_message}
use convert2rhel.Report.{
  format_report_section_heading, Entry, Combined, Line, blank, heading, entry, no_problems,
  is_new_level, entry_lines, summary_lines, by_level, selected, summary,
}

-- The levels of the entries of a report, from its top.
unfoldable pub entry_levels : List Line → List ℕ
entry_levels [] = []
entry_levels (entry level text ∷ lines) = level ∷ entry_levels lines
entry_levels (_ ∷ lines) = entry_levels lines

-- The entries of a report, from its top, each with its level and its text.
unfoldable pub entries : List Line → List (ℕ × String)
entries [] = []
entries (entry level text ∷ lines) = (level, text) ∷ entries lines
entries (_ ∷ lines) = entries lines

abbrev pub as_results : List (ℕ × String) → List (Result (ℕ × String))
as_results = map ok

abbrev pub levels_of : Combined → List ℕ
levels_of d = map (λ (e : (String × String) × Entry). e.1.level) d

entry_levels-append :
    (xs ys : List Line) → entry_levels (xs ++ ys) ≡ entry_levels xs ++ entry_levels ys
unfolding entry_levels
entry_levels-append [] ys = refl
entry_levels-append (entry l t ∷ xs) ys = ap (λ rest. l ∷ rest) (entry_levels-append xs ys)
entry_levels-append (blank ∷ xs) ys = entry_levels-append xs ys
entry_levels-append (heading l t ∷ xs) ys = entry_levels-append xs ys
entry_levels-append (no_problems ∷ xs) ys = entry_levels-append xs ys

entries-append : (xs ys : List Line) → entries (xs ++ ys) ≡ entries xs ++ entries ys
unfolding entries
entries-append [] ys = refl
entries-append (entry l t ∷ xs) ys = ap (λ rest. (l, t) ∷ rest) (entries-append xs ys)
entries-append (blank ∷ xs) ys = entries-append xs ys
entries-append (heading l t ∷ xs) ys = entries-append xs ys
entries-append (no_problems ∷ xs) ys = entries-append xs ys

by_level-IsTotalOrder : IsTotalOrder by_level
by_level-IsTotalOrder = record {
  total = λ x y h. ground (arith, h);
  trans = λ x y z h k. ground (arith, h, k);
}

All-levels :
    (level : ℕ) (d : Combined)
    → All (λ (e : (String × String) × Entry). leb level e.1.level ≡ true) d
    → All (λ l. leb level l ≡ true) (levels_of d)
All-levels level [] h = tt
All-levels level (e ∷ d) h = (h.0, All-levels level d h.1)

Ascending-levels : (d : Combined) → Ascending by_level d → Ascending leb (levels_of d)
Ascending-levels [] h = tt
Ascending-levels ((k, e) ∷ d) h = (All-levels e.level d (h.0), Ascending-levels d h.1)

module _ (render : ℕ → String → String) where
  -- What is shown of a result or a message: the text of `format_action_status_message`, as it is
  -- rendered at its level.
  abbrev pub shown : (String × String) × Entry → Result (ℕ × String)
  shown ((action_id, id), e) = do
    text ←
        format_action_status_message e.level action_id id e.title e.description e.diagnosis
          e.remediations
    ok (e.level, render e.level text)

  entry_lines-entries :
      (last : Option ℕ) (key : String × String) (e : Entry) (lines : List Line)
      → entry_lines render last key e ≡ ok lines
      → as_results (entries lines) ≡ shown (key, e) ∷ []
  unfolding entry_lines entries
  entry_lines-entries last (action_id, id) e lines h =
      let (text, t, h') =
        bind-eq-ok
          (format_action_status_message e.level action_id id e.title e.description e.diagnosis
            e.remediations)
          _ h in
      let (head, u, h'') = bind-eq-ok (format_report_section_heading e.level) _ h' in
      elim (Bool-cases (is_new_level last e.level)) [
        | inl b ↦ ground (arith, b, t, h'')
        | inr b ↦ ground (arith, b, t, h'')
      ]

  summary_lines-entries :
      (last : Option ℕ) (d : Combined) (lines : List Line)
      → summary_lines render last d ≡ ok lines
      → as_results (entries lines) ≡ map shown d
  unfolding summary_lines entries
  summary_lines-entries last [] lines h = ground (arith, h)
  summary_lines-entries last ((key, e) ∷ d) lines h =
      let (first, t, h') = bind-eq-ok (entry_lines render last key e) _ h in
      let (more, u, h'') = bind-eq-ok (summary_lines render (some e.level) d) _ h' in
      let p = entry_lines-entries last key e first t in
      let q = summary_lines-entries (some e.level) d more u in
      let joined : first ++ more ≡ lines = ground (arith, h'') in
      subst (λ ls. as_results (entries ls) ≡ shown (key, e) ∷ map shown d) joined
        (rw (entries-append first more, map-append, p, q) refl)

  entries-no_problems :
      (lines : List Line) (chosen : Combined)
      → entries
          (elim chosen as (λ c. List Line) [ [] ↦ lines ++ (no_problems ∷ []) | _ ∷ _ ↦ lines ])
        ≡ entries lines
  unfolding entries
  entries-no_problems lines [] =
      rw (entries-append lines (no_problems ∷ [])) (append-nil (entries lines))
  entries-no_problems lines (e ∷ d) = refl

  entry_lines-levels :
      (last : Option ℕ) (key : String × String) (e : Entry) (lines : List Line)
      → entry_lines render last key e ≡ ok lines
      → entry_levels lines ≡ e.level ∷ []
  unfolding entry_lines entry_levels
  entry_lines-levels last key e lines h = elim (Bool-cases (is_new_level last e.level)) [
    | inl b ↦ ground (arith, b, h)
    | inr b ↦ ground (arith, b, h)
  ]

  summary_lines-levels :
      (last : Option ℕ) (d : Combined) (lines : List Line)
      → summary_lines render last d ≡ ok lines
      → entry_levels lines ≡ levels_of d
  unfolding summary_lines entry_levels
  summary_lines-levels last [] lines h = ground (arith, h)
  summary_lines-levels last ((key, e) ∷ d) lines h =
      let (first, t, h') = bind-eq-ok (entry_lines render last key e) _ h in
      let (more, u, h'') = bind-eq-ok (summary_lines render (some e.level) d) _ h' in
      let p = entry_lines-levels last key e first t in
      let q = summary_lines-levels (some e.level) d more u in
      let joined : first ++ more ≡ lines = ground (arith, h'') in
      subst (λ ls. entry_levels ls ≡ e.level ∷ levels_of d) joined
        (rw (entry_levels-append first more, p, q) refl)

  entry_levels-no_problems :
      (lines : List Line) (chosen : Combined)
      → entry_levels
          (elim chosen as (λ c. List Line) [ [] ↦ lines ++ (no_problems ∷ []) | _ ∷ _ ↦ lines ])
        ≡ entry_levels lines
  unfolding entry_levels
  entry_levels-no_problems lines [] =
      rw (entry_levels-append lines (no_problems ∷ [])) (append-nil (entry_levels lines))
  entry_levels-no_problems lines (e ∷ d) = refl

  -- A summary that can be formed shows exactly one entry for each result and message that is chosen
  -- for it, with its own level and the text that is formatted of it, the levels in ascending order.
  pub summary-sorted :
      (results : Results) (include_all_reports : Bool) (lines : List Line)
      → summary render results include_all_reports ≡ ok lines
      → (chosen : Combined) × ((selected results include_all_reports ≡ ok chosen)
          × (Ascending leb (entry_levels lines)
              × Perm (as_results (entries lines)) (map shown chosen)))
  unfolding summary
  summary-sorted results all lines h =
      let (chosen, e, h') = bind-eq-ok (selected results all) _ h in
      let ordered = sorted by_level chosen in
      let (formed, s, h'') = bind-eq-ok (summary_lines render none ordered) _ h' in
      let whole : elim chosen as (λ c. List Line) [
        | [] ↦ formed ++ (no_problems ∷ [])
        | _ ∷ _ ↦ formed
      ]
          ≡ lines =
        cc in
      let same =
        ap entry_levels (sym whole)
        ∙ entry_levels-no_problems formed chosen
        ∙ summary_lines-levels none ordered formed s in
      let texts =
        ap (λ ls. as_results (entries ls)) (sym whole)
        ∙ ap as_results (entries-no_problems formed chosen)
        ∙ summary_lines-entries none ordered formed s in
      (
        chosen,
        (
          e,
          (
            rw same
                (Ascending-levels ordered (sorted-Ascending by_level by_level-IsTotalOrder chosen)),
            rw texts (Perm.map shown (sorted-perm by_level chosen)),
          ),
        ),
      )
