-- ===== src/Applock/Processes/Exclusion.antt =====
-- Two processes do not hold the lock together (convert2rhel/applock.py).
use convert2rhel.Prelude.{
  ℕ, Bool, true, false, none, some, ◌≡◌, refl, ◌∙◌, sym, subst, ◌==◌, nat_eq, arith, Bool-cases,
  inl, inr,
}
use convert2rhel.Applock.{number, Machine, try_create, unlink, is_stale}
use convert2rhel.Applock.Processes.{
  Place, idle, creating, reading, checking, removing, holding, failed, turn, World, moved, Moves,
  here, next,
}

-- The process is not about to take away a file, nor on its second try.
unfoldable pub is_calm : Place → Bool
is_calm removing = false
is_calm (creating true) = false
is_calm _ = true

abbrev pub stale_file : Machine → Bool
stale_file m = elim m.file [ none ↦ false | some text ↦ is_stale m.alive text ]

-- The text that a process has read.
abbrev pub stale_text : Machine → Place → Bool
stale_text m (checking text) = is_stale m.alive text
stale_text m _ = false

abbrev pub OwnedBy : Machine → ℕ → Place → Type 0
OwnedBy m pid p = p ≡ holding → m.file ≡ some (number pid)

pub record Inv (w : World) : Type 0 where
  pub file_current : stale_file w.machine ≡ false
  pub text_current : (q : ℕ) → stale_text w.machine (w.place q) ≡ false
  pub calm : (q : ℕ) → is_calm (w.place q) ≡ true
  pub owned : (q : ℕ) → OwnedBy w.machine q (w.place q)

turn-alive : (pid : ℕ) (p : Place) (m : Machine) → (turn pid p m).1.alive ≡ m.alive
unfolding turn try_create unlink
turn-alive pid idle m = refl
turn-alive pid (creating r) m = ground arith
turn-alive pid reading m = ground arith
turn-alive pid (checking t) m = ground arith
turn-alive pid removing m = ground arith
turn-alive pid holding m = ground arith
turn-alive pid failed m = refl

own_current : (alive : ℕ → Bool) (pid : ℕ) → alive pid ≡ true → is_stale alive (number pid) ≡ false
unfolding is_stale
own_current alive pid h = ground (arith, h)

turn-file_current :
    (pid : ℕ) (p : Place) (m : Machine)
    → m.alive pid ≡ true
    → stale_file m ≡ false
    → is_calm p ≡ true
    → stale_file ((turn pid p m).1) ≡ false
unfolding turn try_create unlink is_calm
turn-file_current pid idle m a f c = f
turn-file_current pid (creating r) m a f c = ground (arith, own_current m.alive pid a)
turn-file_current pid reading m a f c = ground (arith, f)
turn-file_current pid (checking t) m a f c = ground (arith, f)
turn-file_current pid removing m a f c = ground (arith, f)
turn-file_current pid holding m a f c = ground (arith, f)
turn-file_current pid failed m a f c = f

turn-calm :
    (pid : ℕ) (p : Place) (m : Machine)
    → stale_file m ≡ false
    → stale_text m p ≡ false
    → is_calm p ≡ true
    → (stale_text ((turn pid p m).1) ((turn pid p m).0) ≡ false)
      × (is_calm ((turn pid p m).0) ≡ true)
unfolding turn try_create unlink is_calm
turn-calm pid idle m f t c = (refl, refl)
turn-calm pid (creating r) m f t c = (ground arith, ground arith)
turn-calm pid reading m f t c = (ground (arith, f), ground arith)
turn-calm pid (checking x) m f t c = (ground (arith, t), ground (arith, t))
turn-calm pid removing m f t c = cc
turn-calm pid holding m f t c = (ground arith, ground arith)
turn-calm pid failed m f t c = (refl, refl)

turn-owned :
    (pid : ℕ) (p : Place) (m : Machine)
    → OwnedBy m pid p
    → OwnedBy ((turn pid p m).1) pid ((turn pid p m).0)
unfolding turn try_create unlink
turn-owned pid idle m o h = cc
turn-owned pid (creating r) m o h = ground (arith, h)
turn-owned pid reading m o h = ground (arith, h)
turn-owned pid (checking t) m o h = ground (arith, h)
turn-owned pid removing m o h = ground (arith, h)
turn-owned pid holding m o h = ground (arith, h, o refl)
turn-owned pid failed m o h = cc

-- A file that another process owns stays.
turn-keeps :
    (pid q : ℕ) (p : Place) (m : Machine)
    → (q == pid) ≡ false
    → is_calm p ≡ true
    → OwnedBy m pid p
    → m.file ≡ some (number q)
    → (turn pid p m).1.file ≡ some (number q)
unfolding turn try_create unlink is_calm
turn-keeps pid q idle m n c o h = h
turn-keeps pid q (creating r) m n c o h = ground (arith, h)
turn-keeps pid q reading m n c o h = ground (arith, h)
turn-keeps pid q (checking t) m n c o h = ground (arith, h)
turn-keeps pid q removing m n c o h = cc
turn-keeps pid q holding m n c o h = ground (arith, h, o refl, n)
turn-keeps pid q failed m n c o h = h

keeps-stale_text :
    (m m' : Machine) (other : Place) → m'.alive ≡ m.alive → stale_text m' other ≡ stale_text m other
keeps-stale_text m m' idle e = refl
keeps-stale_text m m' (creating r) e = refl
keeps-stale_text m m' reading e = refl
keeps-stale_text m m' (checking t) e = rw e
keeps-stale_text m m' removing e = refl
keeps-stale_text m m' holding e = refl
keeps-stale_text m m' failed e = refl

moved-Inv : (pid : ℕ) (w : World) → w.machine.alive pid ≡ true → Inv w → Inv (moved pid w)
unfolding moved
moved-Inv pid w a v =
    let p = w.place pid in
    let m = w.machine in
    let (text, calm) = turn-calm pid p m v.file_current (v.text_current pid) (v.calm pid) in
    let own = turn-owned pid p m (v.owned pid) in
    record {
      file_current = turn-file_current pid p m a v.file_current (v.calm pid);
      text_current = λ q. elim (Bool-cases (q == pid)) [
        | inl b ↦ rw b text
        | inr b ↦ rw b (
            keeps-stale_text m ((turn pid p m).1) (w.place q) (turn-alive pid p m)
            ∙ v.text_current q)
      ];
      calm = λ q. elim (Bool-cases (q == pid)) [ inl b ↦ rw b calm | inr b ↦ rw b (v.calm q) ];
      owned = λ q h. elim (Bool-cases (q == pid)) [
        | inl b ↦
            let e : q ≡ pid = ground arith in
            subst (λ n. (turn pid p m).1.file ≡ some (number n)) (sym e) (own (rw b at h))
        | inr b ↦ turn-keeps pid q p m b (v.calm pid) (v.owned pid) (v.owned q (rw b at h))
      ];
    }

-- Before anybody tries.
pub record IsStart (w : World) : Type 0 where
  pub nobody : (q : ℕ) → w.place q ≡ idle
  pub no_stale : stale_file w.machine ≡ false

IsStart-Inv : (w : World) → IsStart w → Inv w
unfolding is_calm
IsStart-Inv w s = record {
  file_current = s.no_stale;
  text_current = λ q. rw (s.nobody q) refl;
  calm = λ q. rw (s.nobody q) refl;
  owned = λ q h. cc (s.nobody q);
}

Moves-Inv : {w u : World} → IsStart w → Moves w u → Inv u
Moves-Inv {w} s here = IsStart-Inv w s
Moves-Inv s (next {u} pid r a) = moved-Inv pid u a (Moves-Inv s r)

-- Where no stale pid file is there at the start, and no process ends in the course, two processes
-- never hold the lock together, in whatever order they make their calls; and the one that holds it
-- has its pid in the file.
pub mutual_exclusion :
    {w u : World} (p q : ℕ)
    → IsStart w
    → Moves w u
    → u.place p ≡ holding
    → u.place q ≡ holding
    → (p ≡ q) × (u.machine.file ≡ some (number p))
mutual_exclusion {u = u} p q s r hp hq =
    let v = Moves-Inv s r in let fp = v.owned p hp in let fq = v.owned q hq in (cc, fp)
