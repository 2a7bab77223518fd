-- ===== src/Applock/Tests.antt =====
-- Runs of processes 5, 6 and, gone by then, 7 (convert2rhel/applock.py).
use convert2rhel.Prelude.{
  ℕ, Bool, true, false, Option, none, some, ◌≡◌, refl, ◌==◌, nat_eq, if◌then◌else◌, ok,
}
use convert2rhel.Applock.{
  Text, number, Machine, Lock, new_lock, try_create, unlink, pid_exists, is_stale, lock_again,
  clean_up, examine, try_to_lock, unlock,
}
use convert2rhel.Applock.Laws.{try_to_lock_lem, unlock-try_to_lock}
use convert2rhel.Applock.Processes.{
  idle, holding, failed, turn, World, moved, Moves, here, next, run_alone,
}
use convert2rhel.Applock.Processes.Alone.{run_alone-eq-try_to_lock}
use convert2rhel.Applock.Processes.Exclusion.{IsStart, mutual_exclusion}
use convert2rhel.Applock.Processes.Race.{schedule, overlap, stale_lock_race}

program : Unit {0}
unfolding try_create unlink pid_exists is_stale lock_again clean_up examine try_to_lock unlock turn
    moved run_alone schedule nat_eq
program = tt

abbrev alive : ℕ → Bool
alive pid = if pid == 7 then false else true

abbrev machine : Option Text → Machine
machine file = record { file = file; alive = alive; writable = true }

abbrev locked : ℕ → Lock
locked pid = record { pid = pid; locked = true }

abbrev world : Option Text → World
world file = record { machine = machine file; place = λ q. idle }

stale_lock_is_taken :
    try_to_lock (new_lock 5) (machine (some (number 7)))
    ≡ (ok tt, locked 5, machine (some (number 5)))
unfolding program
stale_lock_is_taken = try_to_lock_lem (new_lock 5) (machine (some (number 7))) refl

lock_is_given_back :
    let (r, l, m') = try_to_lock (new_lock 5) (machine none) in
    (r ≡ ok tt) × (unlock l m' ≡ (ok tt, new_lock 5, machine none))
unfolding program
lock_is_given_back = unlock-try_to_lock 5 (machine none) refl refl

run_alone-eq-try_to_lock_test :
    run_alone 7 5 idle (machine (some (number 6))) ≡ (failed, machine (some (number 6)))
unfolding program
run_alone-eq-try_to_lock_test = run_alone-eq-try_to_lock 5 (machine (some (number 6)))

world-IsStart : IsStart (world none)
world-IsStart = record { nobody = λ q. refl; no_stale = refl }

abbrev after : World
after = moved 6 (moved 5 (moved 6 (moved 5 (world none))))

steps : Moves (world none) after
unfolding program
steps = next 6 (next 5 (next 6 (next 5 here refl) refl) refl) refl

abbrev winner : ℕ
winner = 5

mutual_exclusion_example : (winner ≡ winner) × (after.machine.file ≡ some (number winner))
unfolding program
mutual_exclusion_example = mutual_exclusion winner winner world-IsStart steps refl refl

stale_lock_race_example :
    let u = schedule (overlap 5 6) (world (some (number 7))) in
    (u.place 5 ≡ holding) × (u.place 6 ≡ holding)
unfolding program
stale_lock_race_example =
    stale_lock_race 5 6 7 (world (some (number 7))) refl refl refl refl refl refl refl

-- A lock that another holds is refused.
loser_fails : (moved 6 (moved 6 after)).place 6 ≡ failed
unfolding program
loser_fails = refl
