-- ===== src/Report/Highest.antt =====
-- The level that find_highest_report_level names (convert2rhel/actions/report.py).
use convert2rhel.Prelude.{
  ℕ, String, Bool, true, not, ◌||◌, List, [], ◌∷◌, Perm, ◌≡◌, refl, all, All, All-mem, contains,
  mem-contains, filter, leb, nat_eq, string_eq, sorted, sorted-perm, Ascending, IsTotalOrder,
  sorted-Ascending, ok, bind-eq-ok, arith,
}
use mathlib.Core.List.{Mem, mem-cons_self, mem-cons_of_mem}
use mathlib.Core.List.Perm
use convert2rhel.Prelude.Dict
use convert2rhel.Actions.Message.{status_names}
use convert2rhel.Actions.Outcomes.{Results}
use convert2rhel.Report.{
  collected_levels, descending, is_valid_level, first_level, find_highest_report_level,
}

descending-IsTotalOrder : IsTotalOrder descending
descending-IsTotalOrder = record {
  total = λ x y h. ground (arith, h);
  trans = λ x y z h k. ground (arith, h, k);
}

all-of_All : (test : ℕ → Bool) (xs : List ℕ) → All (λ x. test x ≡ true) xs → all test xs ≡ true
all-of_All test [] h = refl
all-of_All test (x ∷ xs) h = ground (arith, h.0, all-of_All test xs h.1)

All-of_mem :
    (test : ℕ → Bool) (xs : List ℕ)
    → ((x : ℕ) → Mem x xs → test x ≡ true)
    → All (λ x. test x ≡ true) xs
All-of_mem test [] h = tt
All-of_mem test (x ∷ xs) h =
    (h x mem-cons_self, All-of_mem test xs λ y m. h y (mem-cons_of_mem x m))

all-filter :
    (test keep : ℕ → Bool) (xs : List ℕ)
    → all test (filter keep xs) ≡ true
    → all (λ x. test x || not (keep x)) xs ≡ true
unfolding filter
all-filter test keep [] h = refl
all-filter test keep (x ∷ xs) h = ground (arith, h, all-filter test keep xs)

contains-filter :
    (keep : ℕ → Bool) (xs : List ℕ) (x : ℕ)
    → contains (filter keep xs) x ≡ true
    → contains xs x ≡ true
unfolding filter
contains-filter keep [] x h = h
contains-filter keep (y ∷ xs) x h = ground (arith, h, contains-filter keep xs x)

-- The first of the sorted levels is one of them, and no other is above it.
first-highest :
    (levels : List ℕ) (code : ℕ)
    → first_level (sorted descending levels) ≡ ok code
    → (contains levels code ≡ true) × (all (λ l. leb l code) levels ≡ true)
unfolding first_level
first-highest levels code h =
    of_sorted (sorted descending levels)
      (sorted-Ascending descending descending-IsTotalOrder levels) (sorted-perm descending levels) h
  where
    of_sorted :
        (ls : List ℕ)
        → Ascending descending ls
        → Perm ls levels
        → first_level ls ≡ ok code
        → (contains levels code ≡ true) × (all (λ l. leb l code) levels ≡ true)
    of_sorted [] a p h = cc
    of_sorted (l ∷ ls) a p h =
        let e : l ≡ code = cc in
        let below : All (λ x. leb x l ≡ true) (l ∷ ls) = (ground arith, a.0) in
        let all_below : (x : ℕ) → Mem x levels → leb x l ≡ true = λ x m.
          All-mem (λ x. leb x l ≡ true) (λ x. hlevel) (l ∷ ls) x below
            (Perm.subset (Perm.symm p) x m) in
        rw (← e) (
          mem-contains levels l (Perm.subset p l mem-cons_self),
          all-of_All (λ x. leb x l) levels (All-of_mem (λ x. leb x l) levels all_below),
        )

-- The name that is found is that of a level which a result or a message has, and no result or
-- message has a level above it, except such as are no status code.
pub find_highest_report_level-highest :
    (results : Results) (name : String)
    → find_highest_report_level results ≡ ok name
    → (code : ℕ) × ((Dict.get_item code status_names ≡ ok name)
        × ((contains (collected_levels results) code ≡ true)
            × (all (λ l. leb l code || not (is_valid_level l)) (collected_levels results) ≡ true)))
unfolding find_highest_report_level
find_highest_report_level-highest results name h =
    let levels = collected_levels results in
    let (code, first, named) =
      bind-eq-ok (first_level (sorted descending (filter is_valid_level levels))) _ h in
    let (there, highest) = first-highest (filter is_valid_level levels) code first in
    (
      code,
      (
        named,
        (
          contains-filter is_valid_level levels code there,
          all-filter (λ l. leb l code) is_valid_level levels highest,
        ),
      ),
    )
