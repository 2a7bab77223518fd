-- ===== src/Applock/Processes/Alone.antt =====
-- The calls of one process, undisturbed, are `try_to_lock` (convert2rhel/applock.py).
use convert2rhel.Prelude.{ℕ, Result, ok, raise, ◌≡◌, arith}
use convert2rhel.Applock.{
  Machine, new_lock, try_create, unlink, lock_again, clean_up, examine, try_to_lock,
}
use convert2rhel.Applock.Processes.{Place, idle, holding, failed, turn, run_alone}

abbrev pub place_of : Result (Unit {0}) → Place
place_of (ok _) = holding
place_of (raise e) = failed

-- A process that makes its calls without another between them ends within seven of them, where
-- `try_to_lock` ends: it holds the lock exactly if that returns, on the same machine.
pub run_alone-eq-try_to_lock :
    (pid : ℕ) (m : Machine)
    → let (r, l, m') = try_to_lock (new_lock pid) m in run_alone 7 pid idle m ≡ (place_of r, m')
unfolding run_alone turn try_to_lock try_create examine clean_up unlink lock_again
run_alone-eq-try_to_lock pid m = ground arith
