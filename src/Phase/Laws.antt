-- ===== src/Phase/Laws.antt =====
-- Which phases can be named, set and asked for (convert2rhel/phase.py).
use convert2rhel.Prelude.{
  String, true, false, some, List, [], ◌∷◌, map, filter, string_eq, ◌≡◌, refl, ok, raise,
  stop_iteration, not_implemented, arith,
}
use convert2rhel.Phase.{
  Phase, post_cli, prepare, pre_ponr_changes, analyze_exit, post_ponr_changes, rollback, text,
  phase, Phases, attribute_names, is_phase_named, next_phase, get, has, set_current, make_current,
  set_last_stage, same_phase, is_current,
}

next_phase-texts :
    (key : String) (names : List String)
    → next_phase (filter (is_phase_named key) (map text names)) ≡ raise stop_iteration
unfolding next_phase filter
next_phase-texts key [] = refl
next_phase-texts key (n ∷ names) = next_phase-texts key names

get-raises : (key : String) → get key ≡ raise stop_iteration
unfolding get
get-raises key = next_phase-texts key attribute_names

has-false : (key : String) → has key ≡ false
unfolding has get next_phase filter
has-false key = refl

-- No phase is found by its name, since the search runs over the names of the class and not over
-- its phases: setting the phase by a name is refused, and asking for one by a name raises
-- StopIteration, whatever the name and the state are.
pub names_are_refused :
    (key : String) (s : Phases)
    → (set_current (some (text key)) s ≡ raise not_implemented)
      × (is_current (text key) s ≡ raise stop_iteration)
unfolding set_current is_current
names_are_refused key s = (ground (arith, has-false key), ground (arith, get-raises key))

same_phase_refl : (p : Phase) → same_phase p p ≡ true
unfolding same_phase string_eq
same_phase_refl post_cli = refl
same_phase_refl prepare = refl
same_phase_refl pre_ponr_changes = refl
same_phase_refl analyze_exit = refl
same_phase_refl post_ponr_changes = refl
same_phase_refl rollback = refl

pub set_current-phase :
    (p : Phase) (s : Phases) → set_current (some (phase p)) s ≡ ok (make_current p s)
unfolding set_current string_eq
set_current-phase post_cli s = refl
set_current-phase prepare s = refl
set_current-phase pre_ponr_changes s = refl
set_current-phase analyze_exit s = refl
set_current-phase post_ponr_changes s = refl
set_current-phase rollback s = refl

-- Setting the phase by an object succeeds for each of the six: it is current then, it remembers
-- the phase before, and a phase that differs from it remembers what it did.
pub set_current-remembers :
    (p q : Phase) (s : Phases)
    → same_phase p q ≡ false
    → (t : Phases) × ((set_current (some (phase p)) s ≡ ok t)
        × ((is_current (phase p) t ≡ ok true)
            × ((t.last_stage p ≡ s.current) × (t.last_stage q ≡ s.last_stage q))))
unfolding is_current set_last_stage
set_current-remembers p q s k =
    let h = same_phase_refl p in
    (
      make_current p s,
      (set_current-phase p s, (ground (arith, h), (ground (arith, h), ground (arith, k)))),
    )
