-- ===== src/Actions/Outcomes/Laws.antt =====
-- When the results show a failure.
use convert2rhel.Prelude.{
  ◌∙◌, All-append, All-imp, ◌≤◌, ◌≡◌, refl, String, Bool, true, false, some, List, [], ◌∷◌, ◌++◌,
  arith, leb, any, has_items, string_eq, All, ok, if◌then◌else◌, ◌||◌,
}
use convert2rhel.Prelude.Dict
use convert2rhel.Prelude.Dict.{Dict}
use convert2rhel.Actions.Message.{Message}
use convert2rhel.Actions.Action.{Action}
use convert2rhel.Actions.Stage.{Finished}
use convert2rhel.Actions.Stage.Ran.{IsSuccess, IsFailure, IsSkip}
use convert2rhel.Actions.Stage.Laws.{IsSorted}
use convert2rhel.Actions.Outcomes.{
  ActionData, Results, level_for_raw_action_data, add_results, parse_action_results,
  find_actions_of_severity,
}

abbrev pub is_failing : String × ActionData → Bool
is_failing (k, d) = leb 101 d.result.level

-- What the search for SKIP and worse finds.
pub find-skip :
    (d : Results)
    → (found : List (String × ActionData)) × (find_actions_of_severity d "SKIP"
          level_for_raw_action_data
        ≡ ok found)
      × (has_items found ≡ any is_failing d)
unfolding find_actions_of_severity string_eq
find-skip [] = ([], refl, refl)
find-skip ((k, v) ∷ d) =
    let (found, e, h) = find-skip d in
    (if leb 101 v.result.level then (k, v) ∷ found else found, rw e, ground arith)

any-insert-failing :
    (k : String) (v : ActionData) (d : Results)
    → leb 101 v.result.level ≡ true
    → any is_failing (Dict.insert k v d) ≡ true
unfolding Dict.insert
any-insert-failing k v [] h = ground arith
any-insert-failing k v ((j, u) ∷ d) h = ground (arith, any-insert-failing k v d h)

any-insert-fine :
    (k : String) (v : ActionData) (d : Results)
    → leb 101 v.result.level ≡ false
    → any is_failing d ≡ false
    → any is_failing (Dict.insert k v d) ≡ false
unfolding Dict.insert
any-insert-fine k v [] h f = ground arith
any-insert-fine k v ((j, u) ∷ d) h f = ground (arith, any-insert-fine k v d h)

module _ {W : Type 0} where
  abbrev IsBad : Action W → Type 0
  IsBad a = (m : Message) × (a.result ≡ some m) × (101 ≤ m.level)

  add-fine :
      (xs : List (Action W)) (ys : List (Action W)) (d : Results)
      → All IsSuccess xs
      → any is_failing d ≡ false
      → (d' : Results) × (add_results (xs ++ ys) d ≡ add_results ys d')
        × (any is_failing d' ≡ false)
  unfolding add_results
  add-fine [] ys d h f = (d, refl, f)
  add-fine (x ∷ xs) ys d ((m, e, z), h) f =
      let v : ActionData = record { messages = x.messages; result = m } in
      let (d', e', f') =
        add-fine xs ys (Dict.insert x.class.id v d) h
          (any-insert-fine x.class.id v d (ground arith) f) in
      (d', rw (e, add_results) e', f')

  add-bad :
      (xs : List (Action W)) (d : Results)
      → All IsBad xs
      → (d' : Results) × (add_results xs d ≡ ok d')
        × (any is_failing d' ≡ (has_items xs || any is_failing d))
  unfolding add_results
  add-bad [] d h = (d, refl, refl)
  add-bad (x ∷ xs) d ((m, e, z), h) =
      let v : ActionData = record { messages = x.messages; result = m } in
      let (d', e', f') = add-bad xs (Dict.insert x.class.id v d) h in
      (d', rw (e, add_results) e', ground (arith, any-insert-failing x.class.id v d (ground arith)))

  abbrev GivesFailures : Finished W → Results → Type 0
  GivesFailures f d =
      (parse_action_results f ≡ ok d)
      × (any is_failing d ≡ (has_items f.failures || has_items f.skips))

  has_items-append :
      (xs ys : List (Action W)) → has_items (xs ++ ys) ≡ (has_items xs || has_items ys)
  has_items-append [] ys = refl
  has_items-append (x ∷ xs) ys = refl

  IsFailure-IsBad : (a : Action W) → IsFailure a → IsBad a
  IsFailure-IsBad a (m, e, z) = (m, e, omega arith)

  IsSkip-IsBad : (a : Action W) → IsSkip a → IsBad a
  IsSkip-IsBad a (m, e, z) = (m, e, omega arith)

  parse-GivesFailures : (f : Finished W) → IsSorted f → (d : Results) × GivesFailures f d
  unfolding parse_action_results
  parse-GivesFailures f v =
      let bad =
        All-append IsBad f.failures f.skips
          (All-imp IsFailure IsBad IsFailure-IsBad f.failures v.failures_level)
          (All-imp IsSkip IsBad IsSkip-IsBad f.skips v.skips_level) in
      let (d, e, clean) = add-fine f.successes (f.failures ++ f.skips) [] v.successes_level refl in
      let (d', e', h) = add-bad (f.failures ++ f.skips) d bad in
      (d', (e ∙ e', ground (arith, has_items-append f.failures f.skips)))

  -- The results of sorted actions can be formed, and the search in them for SKIP and worse finds
  -- an entry exactly when an action failed or was skipped, also where actions share an id.
  pub parse_action_results-find :
      (f : Finished W)
      → IsSorted f
      → (d : Results) × ((found : List (String × ActionData)) × ((parse_action_results f ≡ ok d)
            × ((find_actions_of_severity d "SKIP" level_for_raw_action_data ≡ ok found)
                × (has_items found ≡ (has_items f.failures || has_items f.skips)))))
  parse_action_results-find f v =
      let (d, (e, h)) = parse-GivesFailures f v in
      let (found, e', h') = find-skip d in (d, (found, (e, (e', h' ∙ h))))
