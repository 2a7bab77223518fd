-- ===== src/Applock.antt =====
-- The lock of an application (convert2rhel/applock.py, ApplicationLock), as one process runs it on
-- a machine. The text of the pid file is what `int` makes of it.
pub mod Laws
pub mod Processes
mod Tests
use convert2rhel.Prelude.{
  ℕ, Bool, true, false, Option, none, some, ltb, if◌then◌else◌, Exn, Result, ok, raise, os_error,
  application_locked,
}

-- What `int` reads in the file.
pub data Text : Type 0 where
  number : ℕ → Text
  negative : ℕ → Text
  garbage : Text

-- The pid file, the processes for which `os.kill(pid, 0)` does not give ESRCH, and whether files
-- can be created in and removed from the directory of the locks.
pub record Machine : Type 0 where
  pub file : Option Text
  pub alive : ℕ → Bool
  pub writable : Bool

pub record Lock : Type 0 where
  pub pid : ℕ
  pub locked : Bool

-- `ApplicationLock.__init__`
abbrev pub new_lock : ℕ → Lock
new_lock pid = record { pid = pid; locked = false }

-- `_try_create`: the link is made only where there is no file.
unfoldable pub try_create : ℕ → Machine → Result Bool × Machine
try_create pid m =
    if m.writable
    then (elim m.file [
      | none ↦ (ok true, record m { file = some (number pid) })
      | some text ↦ (ok false, m)
    ])
    else (raise os_error, m)

-- `os.unlink(self._pidfile)`
unfoldable pub unlink : Machine → Result (Unit {0}) × Machine
unlink m =
    if m.writable
    then (elim m.file [
      | none ↦ (raise os_error, m)
      | some text ↦ (ok tt, record m { file = none })
    ])
    else (raise os_error, m)

-- `_pid_exists`, of what `int` gave
unfoldable pub pid_exists : (ℕ → Bool) → Text → Bool
pid_exists alive (number pid) = if ltb 1 pid then alive pid else true
pid_exists alive (negative n) = true
pid_exists alive garbage = true

-- What the contents of the file lead to: the ValueError of `int` and a process that exists are the
-- same exception.
unfoldable pub is_stale : (ℕ → Bool) → Text → Bool
unfolding pid_exists
is_stale alive text = if pid_exists alive text then false else true

-- `try_to_lock` with `_recursive`
unfoldable pub lock_again : Lock → Machine → Result (Unit {0}) × Lock × Machine
lock_again l m =
    let (r, m') = try_create l.pid m in
    elim r [
      | ok true ↦ (ok tt, record l { locked = true }, m')
      | ok false ↦ (raise application_locked, l, m')
      | raise e ↦ (raise e, l, m')
    ]

-- The removal of a stale file, and the second try.
unfoldable pub clean_up : Lock → Machine → Result (Unit {0}) × Lock × Machine
clean_up l m =
    let (r, m') = unlink m in elim r [ ok _ ↦ lock_again l m' | raise e ↦ (raise e, l, m') ]

-- Reading the file, which may be gone.
unfoldable pub examine : Lock → Machine → Result (Unit {0}) × Lock × Machine
examine l m = elim m.file [
  | none ↦ (raise os_error, l, m)
  | some text ↦ if is_stale m.alive text then clean_up l m else (raise application_locked, l, m)
]

-- `try_to_lock`
unfoldable pub try_to_lock : Lock → Machine → Result (Unit {0}) × Lock × Machine
try_to_lock l m =
    let (r, m') = try_create l.pid m in
    elim r [
      | ok true ↦ (ok tt, record l { locked = true }, m')
      | ok false ↦ examine l m'
      | raise e ↦ (raise e, l, m')
    ]

-- `unlock`
unfoldable pub unlock : Lock → Machine → Result (Unit {0}) × Lock × Machine
unlock l m =
    if l.locked
    then (let (r, m') = unlink m in
        elim r [ ok _ ↦ (ok tt, record l { locked = false }, m') | raise e ↦ (raise e, l, m') ])
    else (ok tt, l, m)
