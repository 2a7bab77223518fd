-- ===== src/Transactions/Session.antt =====
-- The attribute `_base` of a transaction handler, and child processes
-- (convert2rhel/pkgmanager/handlers/base.py, run_as_child_process of
-- convert2rhel/utils/__init__.py).
use convert2rhel.Prelude.{
  Option, none, some, Result, ok, raise, attribute_error, keyboard_interrupt,
}
use convert2rhel.Prelude.Calls.{Call}

-- `_base` is an object of yum or dnf, or None, or deleted, which is told apart by nothing that the
-- handlers do: a method of either raises an AttributeError.
pub record Session (B W : Type 0) : Type 0 where
  pub base : Option B
  pub world : W

-- What the parent gets: a value by the queue or an exception by the pipe. A KeyboardInterrupt in
-- the child is sent by neither.
abbrev pub sent : {A : Type 0} → Result (Option A) → Result (Option A)
sent (ok a) = ok a
sent (raise keyboard_interrupt) = ok none
sent (raise e) = raise e

module _ {B W A : Type 0} where
  abbrev put_world : Option B → Result A × W → Result A × Session B W
  put_world base (r, w) = (r, record { base = base; world = w })

  -- A call that does not use the handler
  abbrev pub outside : Call W A → Call (Session B W) A
  outside call s = put_world s.base (call s.world)

  abbrev put_both : Result A × B × W → Result A × Session B W
  put_both (r, b, w) = (r, record { base = some b; world = w })

  abbrev pub method_of : (B → W → Result A × B × W) → Option B → W → Result A × Session B W
  method_of method none w = (raise attribute_error, record { base = none; world = w })
  method_of method (some b) w = put_both (method b w)

  -- `self._base.method(...)`
  abbrev pub on_base : (B → W → Result A × B × W) → Call (Session B W) A
  on_base method s = method_of method s.base s.world

  -- `run_as_child_process`: what the child does to the objects in memory is lost. Where a SIGINT
  -- reaches the parent while the child runs, `interrupt` is the world that the child leaves when it
  -- is terminated, and the parent raises the KeyboardInterrupt again.
  unfoldable pub as_child :
      (interrupt : W → Option W) → Call (Session B W) (Option A) → Call (Session B W) (Option A)
  as_child interrupt body s = elim (interrupt s.world) [
    | none ↦ let (r, s') = body s in (sent r, record { base = s.base; world = s'.world })
    | some w ↦ (raise keyboard_interrupt, record { base = s.base; world = w })
  ]

-- `self._base.attribute = ...`
abbrev pub change_base : {B W : Type 0} → (B → B) → Call (Session B W) (Unit {0})
change_base f = on_base (λ b w. (ok tt, f b, w))

-- `self._base = ...`
abbrev pub set_base : {B W : Type 0} → Option B → Call (Session B W) (Unit {0})
set_base b s = (ok tt, record s { base = b })
