-- ===== src/Actions/Stage/Ran.antt =====
-- What the loop of `Stage.run` adds to the lists of finished actions.
use mathlib.Core.List.Perm
use convert2rhel.Prelude.{
  String, ◌≡◌, refl, sym, Bool, true, false, List, [], ◌∷◌, ◌++◌, map, Perm, arith, append-nil,
  has_items, string_eq, contains, any, filter, ◌||◌, All, some, all,
}
use convert2rhel.Actions.Message.{Message}
use convert2rhel.Actions.Action.{ActionClass, Action}
use convert2rhel.Actions.Order.{ids}
use convert2rhel.Actions.Order.Passes.{IsOrdered}
use convert2rhel.Actions.Stage.Visit.{IsFailureLevel}
use convert2rhel.Actions.Stage.{Progress}

pub has_items-filter :
    (ids ds : List String) → has_items (filter (contains ids) ds) ≡ any (contains ids) ds
unfolding filter
has_items-filter ids [] = refl
has_items-filter ids (d ∷ ds) = ground (arith, has_items-filter ids ds)

pub any-grows :
    (xs ys ds : List String)
    → ((d : String) → contains xs d ≡ true → contains ys d ≡ true)
    → any (contains xs) ds ≡ true
    → any (contains ys) ds ≡ true
any-grows xs ys [] h = λ t. t
any-grows xs ys (d ∷ ds) h = ground (arith, h d, any-grows xs ys ds h)

pub any-stable :
    (before xs ys ds : List String)
    → ((d : String) → contains before d ≡ true → contains ys d ≡ contains xs d)
    → all (contains before) ds ≡ true
    → any (contains xs) ds ≡ false
    → any (contains ys) ds ≡ false
any-stable before xs ys [] h = λ _ t. t
any-stable before xs ys (d ∷ ds) h = ground (arith, h d, any-stable before xs ys ds h)

module _ {W : Type 0} where
  -- Some dependency of the class is among the ids.
  abbrev pub is_blocked : List String → ActionClass W → Bool
  is_blocked failed_ids c = any (contains failed_ids) c.dependencies

  abbrev pub classes : List (Action W) → List (ActionClass W)
  classes actions = map (λ a. a.class) actions

  abbrev pub action_ids : List (Action W) → List String
  action_ids actions = map (λ a. a.class.id) actions

  -- No id stands among the ids given or comes twice.
  abbrev pub IsFresh : List String → List (ActionClass W) → Type 0
  IsFresh before [] = Unit
  IsFresh before (c ∷ cs) = (contains before c.id ≡ false) × IsFresh (c.id ∷ before) cs

  abbrev pub IsSuccess : Action W → Type 0
  IsSuccess a = (m : Message) × (a.result ≡ some m) × (m.level ≡ 0)

  abbrev pub IsFailure : Action W → Type 0
  IsFailure a = (m : Message) × (a.result ≡ some m) × IsFailureLevel m.level

  abbrev pub IsSkip : Action W → Type 0
  IsSkip a = (m : Message) × (a.result ≡ some m) × (m.level ≡ 101)

  -- What the loop over `cs` adds to `p`, if it ends in `q`.
  pub record Ran (cs : List (ActionClass W)) (p q : Progress W) : Type 0 where
    pub successes : List (Action W)
    pub failures : List (Action W)
    pub skips : List (Action W)
    pub successes_added : q.finished.successes ≡ p.finished.successes ++ successes
    pub failures_added : q.finished.failures ≡ p.finished.failures ++ failures
    pub skips_added : q.finished.skips ≡ p.finished.skips ++ skips
    pub complete : Perm (classes (successes ++ (failures ++ skips))) cs
    pub are_successes : All IsSuccess successes
    pub are_failures : All IsFailure failures
    pub are_skips : All IsSkip skips
    pub grows : (d : String) → contains p.failed_ids d ≡ true → contains q.failed_ids d ≡ true
    pub bounded :
        (d : String)
        → contains q.failed_ids d ≡ true
        → (contains (ids cs) d || contains p.failed_ids d) ≡ true
    pub exact :
        (d : String)
        → contains q.failed_ids d ≡ (
            contains (action_ids failures) d
            || (contains (action_ids skips) d || contains p.failed_ids d))
    pub skips_blocked : All (λ a. is_blocked q.failed_ids a.class ≡ true) skips
    pub stable :
        (before : List String) (d : String)
        → IsFresh before cs
        → contains before d ≡ true
        → contains q.failed_ids d ≡ contains p.failed_ids d
    pub not_blocked :
        (before : List String)
        → IsOrdered before cs
        → IsFresh before cs
        → All (λ a. is_blocked q.failed_ids a.class ≡ false) successes
          × All (λ a. is_blocked q.failed_ids a.class ≡ false) failures

  pub Ran-nil : (p : Progress W) → Ran [] p p
  Ran-nil p = record {
    successes = [];
    failures = [];
    skips = [];
    successes_added = sym (append-nil _);
    failures_added = sym (append-nil _);
    skips_added = sym (append-nil _);
    complete = Perm.rfl;
    are_successes = tt;
    are_failures = tt;
    are_skips = tt;
    grows = λ d h. h;
    bounded = λ d h. h;
    exact = λ d. refl;
    skips_blocked = tt;
    stable = λ before d f h. refl;
    not_blocked = λ before o f. (tt, tt);
  }
