-- ===== src/Actions/Order.antt =====
-- `resolve_action_order` (convert2rhel/actions/__init__.py). The generator is the list of what it
-- yields and the error that it may raise behind the last of them. Of the actions resolved before,
-- it reads only the ids and their number.
pub mod Passes
pub mod Rounds
pub mod Laws
pub mod Complete
use convert2rhel.Prelude.{
  ℕ, zero, suc, ◌+◌, String, Bool, not, Option, none, some, List, [], ◌∷◌, ◌++◌, map, length, all,
  has_items, contains, string_eq, nat_eq, ◌==◌, if◌then◌else◌, sorted, text_le, Exn,
  dependency_error,
}
use convert2rhel.Actions.Action.{ActionClass}

module _ (W : Type 0) where
  pub record Pass : Type 0 where
    pub yielded : List (ActionClass W)
    pub resolved : List String
    pub unresolved : List (ActionClass W)

  pub record Resolution : Type 0 where
    pub yielded : List (ActionClass W)
    pub resolved : List String
    pub unresolved : List (ActionClass W)
    pub error : Option Exn

module _ {W : Type 0} where
  abbrev pub ids : List (ActionClass W) → List String
  ids classes = map (λ c. c.id) classes

  abbrev pub satisfied : List String → ActionClass W → Bool
  satisfied resolved c = all (contains resolved) c.dependencies

  abbrev pub independent : List String → ActionClass W → Bool
  independent resolved c = not (has_items c.dependencies)

  -- One `for` loop over the actions: those that pass the test are yielded and resolved at once.
  unfoldable pub pass :
      (List String → ActionClass W → Bool) → List (ActionClass W) → List String → Pass W
  pass test [] resolved = record { yielded = []; resolved = resolved; unresolved = [] }
  pass test (c ∷ cs) resolved =
      let rest = pass test cs (if test resolved c then c.id ∷ resolved else resolved) in
      if test resolved c
      then record rest { yielded = c ∷ rest.yielded }
      else record rest { unresolved = c ∷ rest.unresolved }

  -- What stands behind the `while` loop.
  abbrev finish : ℕ → List String → List (ActionClass W) → Resolution W
  finish previous resolved unresolved = record {
    yielded = [];
    resolved = resolved;
    unresolved = unresolved;
    error = if previous == 0 then none else some (dependency_error (ids unresolved));
  }

  abbrev prepend : List (ActionClass W) → Resolution W → Resolution W
  prepend yielded o = record o { yielded = yielded ++ o.yielded }

  -- The `while` loop, at most `bound` times. `previous` falls in each round, so a bound that is
  -- at least `previous` never ends the loop before its test does.
  unfoldable pub resolve_rounds : ℕ → ℕ → List String → List (ActionClass W) → Resolution W
  unfolding pass
  resolve_rounds zero previous resolved unresolved = finish previous resolved unresolved
  resolve_rounds (suc bound) previous resolved unresolved =
      let p = pass satisfied unresolved resolved in
      let rest =
        prepend p.yielded (resolve_rounds bound (length unresolved) p.resolved p.unresolved) in
      if previous == length unresolved then finish previous resolved unresolved else rest

  unfoldable pub resolve_action_order : List (ActionClass W) → List String → Resolution W
  unfolding resolve_rounds sorted
  resolve_action_order potential previously_resolved =
      let p = pass independent (sorted (λ c d. text_le c.id d.id) potential) previously_resolved in
      let previous = length potential + length previously_resolved in
      prepend p.yielded (resolve_rounds previous previous p.resolved p.unresolved)
