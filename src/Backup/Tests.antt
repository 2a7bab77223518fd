-- ===== src/Backup/Tests.antt =====
-- A change that keeps the number from before it and adds its amount; a wary one cannot be undone
-- where its amount is 3 (convert2rhel/backup/__init__.py).
use convert2rhel.Prelude.{
  ℕ, ◌+◌, true, List, [], ◌∷◌, ◌++◌, has_items, ◌≡◌, refl, os_error, index_error, ok, raise, ◌==◌,
  nat_eq, string_eq, if◌then◌else◌, arith,
}
use convert2rhel.Backup.{
  Restorable, Control, new_control, push, is_backed_up, pop_each, pop_all, failure_message,
  rollback_failed,
}
use convert2rhel.Backup.Laws.{IsUninterrupted, pop_all-unwinds, restored, messages_of, unwound}
use convert2rhel.Backup.Undo.{CanUndo, push_each, push_each-pop_all}

record Change : Type 0 where
  amount : ℕ
  saved : ℕ

abbrev counting : Restorable Change ℕ
counting = record {
  same = λ a b. a.amount == b.amount;
  enable = λ c w. (ok tt, record c { saved = w }, w + c.amount);
  restore = λ c w. (ok tt, c, c.saved);
  class_name = λ c. "Change";
  describe = λ e. "failed";
}

abbrev wary : Restorable Change ℕ
wary = record counting {
  restore = λ c w. if c.amount == 3 then (raise os_error, c, w) else (ok tt, c, c.saved);
}

abbrev change : ℕ → Change
change n = record { amount = n; saved = 0 }

abbrev changes : List Change
changes = change 2 ∷ change 3 ∷ change 2 ∷ []

counting-CanUndo : CanUndo counting
counting-CanUndo c w h = (refl, refl)

-- The change that is pushed again is enabled once.
test_push_each : (push_each counting changes new_control 10).2 ≡ 15
unfolding push_each push is_backed_up nat_eq
test_push_each = refl

push_each-pop_all_test :
    let (_, c, w) = push_each counting changes new_control 10 in
    ((pop_all counting c w).2 ≡ 10) × ((pop_all counting c w).1 ≡ new_control)
unfolding push_each push is_backed_up nat_eq
push_each-pop_all_test = push_each-pop_all counting counting-CanUndo changes 10 refl

wary-IsUninterrupted : IsUninterrupted wary
unfolding nat_eq
wary-IsUninterrupted c w e h = ground (arith, h)

abbrev enabled : Control Change
enabled = record {
  restorables = record { amount = 3; saved = 12 } ∷ record { amount = 2; saved = 10 } ∷ [];
  rollback_failures = [];
}

test_failed : rollback_failed ((pop_all wary enabled 15).1) ≡ true
unfolding pop_all pop_each rollback_failed failure_message nat_eq string_eq
test_failed = refl

pop_all-unwinds_example : pop_all wary enabled 15 ≡ (
    if has_items enabled.restorables
    then (
      ok (restored wary enabled.restorables 15),
      record {
        restorables = [];
        rollback_failures = enabled.rollback_failures ++ messages_of wary enabled.restorables 15;
      },
      unwound wary enabled.restorables 15,
    )
    else (raise (index_error "No backups to restore"), enabled, 15))
pop_all-unwinds_example = pop_all-unwinds wary wary-IsUninterrupted enabled 15
