-- ===== src/Applock/Processes.antt =====
-- Processes that contend for the lock: each makes one call of the system at a time, in any order
-- (convert2rhel/applock.py).
pub mod Alone
pub mod Exclusion
pub mod Race
use convert2rhel.Prelude.{
  ℕ, zero, suc, Bool, true, false, Option, none, some, List, [], ◌∷◌, ◌≡◌, ◌==◌, nat_eq,
  if◌then◌else◌, Result, ok, raise,
}
use convert2rhel.Applock.{Text, number, Machine, try_create, unlink, is_stale}

-- Where a process stands. `creating true` is the second try, behind the removal of a stale file.
pub data Place : Type 0 where
  idle : Place
  creating : (recursive : Bool) → Place
  reading : Place
  checking : Text → Place
  removing : Place
  holding : Place
  failed : Place

-- What a process does next; in `holding` that is `unlock`.
unfoldable pub turn : ℕ → Place → Machine → Place × Machine
turn pid idle m = (creating false, m)
turn pid (creating recursive) m =
    let (r, m') = try_create pid m in
    elim r [
      | ok true ↦ (holding, m')
      | ok false ↦ (if recursive then failed else reading, m')
      | raise e ↦ (failed, m')
    ]
turn pid reading m = elim m.file [ none ↦ (failed, m) | some text ↦ (checking text, m) ]
turn pid (checking text) m = (if is_stale m.alive text then removing else failed, m)
turn pid removing m =
    let (r, m') = unlink m in elim r [ ok _ ↦ (creating true, m') | raise e ↦ (failed, m') ]
turn pid holding m =
    let (r, m') = unlink m in elim r [ ok _ ↦ (idle, m') | raise e ↦ (holding, m') ]
turn pid failed m = (failed, m)

pub record World : Type 0 where
  pub machine : Machine
  pub place : ℕ → Place

unfoldable pub moved : ℕ → World → World
moved pid w =
    let (place', machine') = turn pid (w.place pid) w.machine in
    record { machine = machine'; place = λ q. if q == pid then place' else w.place q }

-- A process ends, wherever it stands: its file stays.
unfoldable pub exited : ℕ → World → World
exited pid w = record {
  machine = record w.machine { alive = λ q. if q == pid then false else w.machine.alive q };
  place = λ q. if q == pid then failed else w.place q;
}

-- Only a process that lives makes a call.
pub data Step : World → World → Type 0 where
  move : (pid : ℕ) (w : World) → w.machine.alive pid ≡ true → Step w (moved pid w)
  exit : (pid : ℕ) (w : World) → Step w (exited pid w)

-- Steps in which no process ends.
pub data Moves (w : World) : World → Type 0 where
  here : Moves w w
  next : {u : World} (pid : ℕ) → Moves w u → u.machine.alive pid ≡ true → Moves w (moved pid u)

-- A process by itself, up to where it holds the lock or has failed.
unfoldable pub run_alone : ℕ → ℕ → Place → Machine → Place × Machine
run_alone zero pid place m = (place, m)
run_alone (suc fuel) pid holding m = (holding, m)
run_alone (suc fuel) pid failed m = (failed, m)
run_alone (suc fuel) pid place m =
    let (place', m') = turn pid place m in run_alone fuel pid place' m'
