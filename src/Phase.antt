-- ===== src/Phase.antt =====
-- The phases of a conversion (convert2rhel/phase.py): the class attributes of `ConversionPhases`,
-- what `__dict__` iterates over, and the methods that read and set the current phase.
pub mod Laws
mod Tests
use convert2rhel.Prelude.{
  String, Bool, true, false, ◌&&◌, Option, none, some, List, [], ◌∷◌, map, filter, contains, ◌==◌,
  string_eq, if◌then◌else◌, Exn, Result, ok, raise, stop_iteration, not_implemented, ◌>>=◌,
}

-- The six objects of class `ConversionPhase` that `ConversionPhases` declares.
pub data Phase : Type 0 where
  post_cli prepare pre_ponr_changes analyze_exit post_ponr_changes rollback : Phase

abbrev pub name : Phase → String
name post_cli = "POST_CLI"
name prepare = "PREPARE"
name pre_ponr_changes = "PRE_PONR_CHANGES"
name analyze_exit = "ANALYZE_EXIT"
name post_ponr_changes = "POST_PONR_CHANGES"
name rollback = "ROLLBACK"

abbrev pub log_name : Phase → Option String
log_name post_cli = none
log_name prepare = some "Prepare"
log_name pre_ponr_changes = some "Prepare"
log_name analyze_exit = some "Analyzing"
log_name post_ponr_changes = some "Convert"
log_name rollback = some "Rollback"

-- `__str__`
abbrev pub phase_text : Phase → String
phase_text p = elim (log_name p) [ none ↦ name p | some text ↦ text ]

-- `__eq__`, by the hash of the name
unfoldable pub same_phase : Phase → Phase → Bool
unfolding string_eq
same_phase p q = name p == name q

-- A value that the methods are given, or that iteration yields.
pub data Value : Type 0 where
  text : String → Value
  phase : Phase → Value

-- The names in `cls.__dict__`, of the attributes and the methods.
abbrev pub attribute_names : List String
attribute_names =
    "__module__" ∷ "__doc__" ∷ "POST_CLI" ∷ "PREPARE" ∷ "PRE_PONR_CHANGES" ∷ "ANALYZE_EXIT"
    ∷ "POST_PONR_CHANGES" ∷ "ROLLBACK" ∷ "current_phase" ∷ "get" ∷ "has" ∷ "set_current"
    ∷ "is_current" ∷ []

-- `isinstance(phase, ConversionPhase) and phase.name == key`
abbrev pub is_phase_named : String → Value → Bool
is_phase_named key (text t) = false
is_phase_named key (phase p) = name p == key

-- `next` of what the generator finds
unfoldable pub next_phase : List Value → Result Phase
next_phase (phase p ∷ values) = ok p
next_phase (text t ∷ values) = next_phase values
next_phase [] = raise stop_iteration

unfoldable pub get : String → Result Phase
unfolding next_phase filter
get key = next_phase (filter (is_phase_named key) (map text attribute_names))

unfoldable pub has : String → Bool
has key = elim (get key) [ ok p ↦ true | raise e ↦ false ]

-- The class attribute `current_phase`, and `last_stage` of each phase.
pub record Phases : Type 0 where
  pub current : Option Phase
  pub last_stage : Phase → Option Phase

-- `phase.last_stage = previous`, where `phase` is found by its equality
unfoldable pub set_last_stage : Phase → Option Phase → (Phase → Option Phase) → Phase → Option Phase
unfolding same_phase
set_last_stage p previous last q = if same_phase p q then previous else last q

abbrev pub make_current : Phase → Phases → Phases
make_current p s = record { current = some p; last_stage = set_last_stage p s.current s.last_stage }

unfoldable pub set_current : Option Value → Phases → Result Phases
unfolding string_eq
set_current none s = ok (record s { current = none })
set_current (some (text key)) s =
    if has key then (do p ← get key; ok (make_current p s)) else raise not_implemented
set_current (some (phase p)) s =
    if contains attribute_names (name p) then ok (make_current p s) else raise not_implemented

-- `==` of the current phase, which may be None, whose hash no name has
abbrev pub current_is : Phase → Phases → Bool
current_is p s = elim s.current [ none ↦ false | some q ↦ same_phase q p ]

unfoldable pub is_current : Value → Phases → Result Bool
is_current (text key) s = do p ← get key; ok (current_is p s)
is_current (phase p) s = ok (current_is p s)

-- The case of a list, `any` of its items: it ends at the first that is current.
unfoldable pub is_any_current : List Value → Phases → Result Bool
is_any_current [] s = ok false
is_any_current (v ∷ values) s = elim (is_current v s) [
  | ok true ↦ ok true
  | ok false ↦ is_any_current values s
  | raise e ↦ raise e
]
