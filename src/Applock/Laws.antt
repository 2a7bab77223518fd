-- ===== src/Applock/Laws.antt =====
-- What one process finds when no other interferes (convert2rhel/applock.py).
use convert2rhel.Prelude.{
  ℕ, Bool, true, none, some, if◌then◌else◌, ok, raise, application_locked, ◌≡◌, arith,
}
use convert2rhel.Applock.{
  number, Machine, Lock, new_lock, try_create, unlink, is_stale, lock_again, clean_up, examine,
  try_to_lock, unlock,
}

-- What `try_to_lock` promises: the file is ours where there was none or a stale one, and otherwise
-- it is left as it is.
abbrev pub locks : Lock → Machine → Bool
locks l m = elim m.file [ none ↦ true | some text ↦ is_stale m.alive text ]

-- Where the directory can be written, a lock is taken exactly where there is no pid file or one
-- whose process is gone: then the file holds the pid of the lock. Otherwise it raises
-- ApplicationLockedError and changes nothing.
pub try_to_lock_lem :
    (l : Lock) (m : Machine)
    → m.writable ≡ true
    → try_to_lock l m ≡ (
        if locks l m
        then (ok tt, record l { locked = true }, record m { file = some (number l.pid) })
        else (raise application_locked, l, m))
unfolding try_to_lock try_create examine clean_up unlink lock_again
try_to_lock_lem l m w = ground (arith, w)

-- Unlocking a lock that was taken on a machine without a pid file, and not before, gives the
-- machine and the lock from before.
pub unlock-try_to_lock :
    (pid : ℕ) (m : Machine)
    → m.writable ≡ true
    → m.file ≡ none
    → let (r, l, m') = try_to_lock (new_lock pid) m in
      (r ≡ ok tt) × (unlock l m' ≡ (ok tt, new_lock pid, m))
unfolding try_to_lock try_create unlock unlink
unlock-try_to_lock pid m w f = (ground (arith, w, f), ground (arith, w, f))
