-- ===== src/Phase/Tests.antt =====
-- Setting the phase (convert2rhel/phase.py).
use convert2rhel.Prelude.{
  true, none, some, ◌≡◌, refl, ok, raise, not_implemented, stop_iteration, string_eq,
}
use convert2rhel.Phase.{prepare, rollback, Phases, text, phase, set_current, is_current, same_phase}
use convert2rhel.Phase.Laws.{names_are_refused, set_current-remembers}

abbrev in_prepare : Phases
in_prepare = record { current = some prepare; last_stage = λ p. none }

names_are_refused_test :
    (set_current (some (text "PREPARE")) in_prepare ≡ raise not_implemented)
    × (is_current (text "PREPARE") in_prepare ≡ raise stop_iteration)
names_are_refused_test = names_are_refused "PREPARE" in_prepare

set_current-remembers_test :
    (t : Phases) × ((set_current (some (phase rollback)) in_prepare ≡ ok t)
      × ((is_current (phase rollback) t ≡ ok true)
          × ((t.last_stage rollback ≡ in_prepare.current)
              × (t.last_stage prepare ≡ in_prepare.last_stage prepare))))
unfolding same_phase string_eq
set_current-remembers_test = set_current-remembers rollback prepare in_prepare refl
