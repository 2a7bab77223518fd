-- ===== src/Main/Locked.antt =====
-- The wrapper `main` of convert2rhel/main.py: a conversion under the lock of the application. The
-- pid file is on a machine that the conversion itself does not touch.
use convert2rhel.Prelude.{
  ℕ, true, false, none, some, Result, ok, raise, application_locked, ◌≡◌, refl, arith,
}
use convert2rhel.Applock.{
  Machine, Lock, new_lock, try_to_lock, unlock, unlink, Text, number, is_stale,
}
use convert2rhel.Applock.Laws.{locks, try_to_lock_lem}
use convert2rhel.Main.Steps.{exception, Ending, returned, raised, State, Environment, Code}
use convert2rhel.Main.{failure, main_locked}

module _ {R W : Type 0} (env : Environment R W) where
  -- `except applock.ApplicationLockedError`
  abbrev pub when_locked : Ending ℕ → Ending ℕ
  when_locked (raised (exception application_locked)) = returned failure
  when_locked e = e

  -- `__exit__`: an exception of `unlock` takes the place of how the conversion ends.
  unfoldable pub leave : Ending ℕ → Lock → Machine → Ending ℕ × Machine
  leave e l m =
      let (r, l', m') = unlock l m in
      elim r [ ok _ ↦ (e, m') | raise x ↦ (raised (exception x), m') ]

  -- The body of the `with` statement, behind `__enter__`
  abbrev pub in_lock :
      State R W → Result (Unit {0}) × Lock × Machine → Ending ℕ × Machine × State R W
  in_lock s (raise e, l, m) = (raised (exception e), m, s)
  in_lock s (ok u, l, m) =
      let (e, s') = main_locked env s in let (e', m') = leave e l m in (e', m', s')

  -- `main` behind `cli.CLI()` and `require_root()`
  unfoldable pub guarded : ℕ → Machine → State R W → Ending ℕ × Machine × State R W
  guarded pid m s =
      let (e, m', s') = in_lock s (try_to_lock (new_lock pid) m) in (when_locked e, m', s')

  abbrev pub behind_set_up :
      ℕ → Machine → Ending (Unit {0}) × State R W → Ending ℕ × Machine × State R W
  behind_set_up pid m (raised x, s) = (raised x, m, s)
  behind_set_up pid m (returned u, s) = guarded pid m s

  -- `main`, where `set_up` is the two calls before the lock.
  unfoldable pub main :
      Code R W (Unit {0}) → ℕ → Machine → State R W → Ending ℕ × Machine × State R W
  main set_up pid m s = behind_set_up pid m (set_up s)

  abbrev locked_by : ℕ → Lock
  locked_by pid = record { pid = pid; locked = true }

  leave-unlocks :
      (pid : ℕ) (m : Machine) (e : Ending ℕ)
      → m.writable ≡ true
      → leave e (locked_by pid) (record m { file = some (number pid) })
        ≡ (e, record m { file = none })
  unfolding leave unlock unlink
  leave-unlocks pid m e w = ground (arith, w)

  -- Where the pid file is that of a process that runs, or cannot be read as a number, the conversion
  -- is not begun: the exit code is FAILURE, and the pid file and the state are as they were.
  pub main-respects_lock :
      (set_up : Code R W (Unit {0})) (pid : ℕ) (m : Machine) (s s' : State R W) (text : Text)
      → m.writable ≡ true
      → m.file ≡ some text
      → is_stale m.alive text ≡ false
      → set_up s ≡ (returned tt, s')
      → main set_up pid m s ≡ (returned failure, m, s')
  unfolding main guarded
  main-respects_lock set_up pid m s s' text w f i e =
      let refused : try_to_lock (new_lock pid) m ≡ (raise application_locked, new_lock pid, m) =
        ground (arith, try_to_lock_lem (new_lock pid) m w, f, i) in
      rw (e, refused) refl

  -- Where the pid file is missing or stale, the conversion runs, its exit code is that of `main`, and
  -- behind it there is no pid file, also where it ends with an exception.
  pub main-releases_lock :
      (set_up : Code R W (Unit {0})) (pid : ℕ) (m : Machine) (s s' : State R W)
      → m.writable ≡ true
      → locks (new_lock pid) m ≡ true
      → set_up s ≡ (returned tt, s')
      → let (e, s'') = main_locked env s' in
        main set_up pid m s ≡ (when_locked e, record m { file = none }, s'')
  unfolding main guarded
  main-releases_lock set_up pid m s s' w l e =
      let owned = record m { file = some (number pid) } in
      let taken : try_to_lock (new_lock pid) m ≡ (ok tt, locked_by pid, owned) =
        ground (arith, try_to_lock_lem (new_lock pid) m w, l) in
      let ending = (main_locked env s').0 in rw (e, taken, leave-unlocks pid m ending w) refl
