-- ===== src/Applock/Processes/Race.antt =====
-- A stale pid file, and two processes that find it (convert2rhel/applock.py).
use convert2rhel.Prelude.{
  ℕ, Bool, true, false, Option, none, some, List, [], ◌∷◌, ◌≡◌, refl, ap₂, ◌∙◌, ◌==◌, nat_eq, arith,
}
use convert2rhel.Applock.{Text, number, Machine, try_create, unlink, is_stale}
use convert2rhel.Applock.Processes.{
  Place, idle, creating, reading, checking, removing, holding, turn, World, moved,
}

-- The processes of a list make a call each, in the order of the list.
unfoldable pub schedule : List ℕ → World → World
schedule [] w = w
schedule (pid ∷ pids) w = schedule pids (moved pid w)

abbrev pub overlap : ℕ → ℕ → List ℕ
overlap p q = p ∷ p ∷ p ∷ p ∷ q ∷ q ∷ q ∷ q ∷ p ∷ p ∷ q ∷ q ∷ []

-- Where two processes stand, and on what machine.
record Stand (p q : ℕ) (a b : Place) (m : Machine) (w : World) : Type 0 where
  first : w.place p ≡ a
  second : w.place q ≡ b
  machine : w.machine ≡ m

module _ (p q : ℕ) (apart : (q == p) ≡ false) where
  first-turn :
      (a b a' : Place) (m m' : Machine) (w : World)
      → turn p a m ≡ (a', m')
      → Stand p q a b m w
      → Stand p q a' b m' (moved p w)
  unfolding moved
  first-turn a b a' m m' w e st =
      let t = ap₂ (turn p) st.first st.machine ∙ e in
      record {
        first = ground (arith, t);
        second = ground (arith, st.second, apart);
        machine = ground (arith, t);
      }

-- The same, of the other process.
Stand-swap :
    {p q : ℕ} {a b : Place} {m : Machine} {w : World} → Stand p q a b m w → Stand q p b a m w
Stand-swap st = record { first = st.second; second = st.first; machine = st.machine }

-- The machine that a process finds, by the contents of the file.
abbrev at : (ℕ → Bool) → Option Text → Machine
at alive file = record { file = file; alive = alive; writable = true }

module _ (p q dead : ℕ) (alive : ℕ → Bool) (stale : is_stale alive (number dead) ≡ true) where
  -- A process that starts is at the removal of the stale file behind four calls.
  up_to_removing :
      (b : Place) (w : World)
      → (q == p) ≡ false
      → Stand p q idle b (at alive (some (number dead))) w
      → Stand p q removing b
          (at alive (some (number dead)))
          (moved p (moved p (moved p (moved p w))))
  unfolding turn try_create
  up_to_removing b w n st =
      let m = at alive (some (number dead)) in
      let s1 = first-turn p q n idle b (creating false) m m w refl st in
      let s2 = first-turn p q n (creating false) b reading m m _ refl s1 in
      let s3 = first-turn p q n reading b (checking (number dead)) m m _ refl s2 in
      first-turn p q n (checking (number dead)) b removing m m _ (ground (arith, stale)) s3

  -- From there it holds the lock behind two, whoever made the file that it removes.
  up_to_holding :
      (b : Place) (text : Text) (w : World)
      → (q == p) ≡ false
      → Stand p q removing b (at alive (some text)) w
      → Stand p q holding b (at alive (some (number p))) (moved p (moved p w))
  unfolding turn try_create unlink
  up_to_holding b text w n st =
      let s1 = first-turn p q n removing b (creating true) _ (at alive none) w refl st in
      first-turn p q n (creating true) b holding _ (at alive (some (number p))) _ refl s1

-- Whatever the pids of two processes are, where the pid file is that of a process that is gone,
-- both hold the lock behind some order of their calls: the one that cleans up second removes the
-- file that the first has just made.
pub stale_lock_race :
    (p q dead : ℕ) (w : World)
    → (q == p) ≡ false
    → (p == q) ≡ false
    → w.machine.writable ≡ true
    → w.machine.file ≡ some (number dead)
    → is_stale w.machine.alive (number dead) ≡ true
    → w.place p ≡ idle
    → w.place q ≡ idle
    → let u = schedule (overlap p q) w in (u.place p ≡ holding) × (u.place q ≡ holding)
unfolding schedule
stale_lock_race p q dead w n n' k f s hp hq =
    let a = w.machine.alive in
    let start : Stand p q idle idle (at a (some (number dead))) w = record {
      first = hp;
      second = hq;
      machine = ground (arith, k, f);
    } in
    let s1 = up_to_removing p q dead a s idle w n start in
    let s2 = up_to_removing q p dead a s removing _ n' (Stand-swap s1) in
    let s3 = up_to_holding p q dead a s removing _ _ n (Stand-swap s2) in
    let s4 = up_to_holding q p dead a s holding _ _ n' (Stand-swap s3) in (s4.second, s4.first)
