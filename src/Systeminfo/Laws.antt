-- ===== src/Systeminfo/Laws.antt =====
-- The release that a system is converted to, and how often the state of D-Bus is asked for
-- (convert2rhel/systeminfo.py).
use convert2rhel.Prelude.{
  ℕ, zero, suc, ◌+◌, ◌≤◌, String, ◌<>◌, Bool, false, Option, none, some, [], ◌∷◌, ok, ◌≡◌, refl, ap,
  ◌∙◌, arith,
}
use convert2rhel.Prelude.Text.{
  Char, has_char, split_all, nil-append, cons-append, append-nil, char-append, same_char_self,
}
use convert2rhel.Prelude.Calls.{Call, ◌>>=◌}
use convert2rhel.Prelude.Costs.{Costs, computed-Costs, more-Costs, bind-Costs}
use convert2rhel.Systeminfo.Version.{Version, Texts, minor_text, version_text, version_of}
use convert2rhel.Systeminfo.Services.{power_of_two, unless_known, dbus_loop, is_dbus_running}

split_all-one : (d : Char) (s : String) → has_char d s ≡ false → split_all d s ≡ (s ∷ [])
unfolding has_char split_all
split_all-one d String.[] h = refl
split_all-one d (String.◌∷◌ c s) h = ground (arith, h, split_all-one d s)

split_all-first :
    (d : Char) (x y : String)
    → has_char d x ≡ false
    → split_all d (x <> (String.◌∷◌ d y)) ≡ (x ∷ split_all d y)
unfolding has_char split_all
split_all-first d String.[] y h =
    rw (nil-append (String.◌∷◌ d y)) (ground (arith, same_char_self d))
split_all-first d (String.◌∷◌ c x) y h =
    rw (cons-append c x (String.◌∷◌ d y)) (ground (arith, h, split_all-first d x y))

-- `int` reads what `str` writes, which has no dot.
pub record IsDecimal (texts : Texts) : Type 0 where
  pub reads : (n : ℕ) → texts.int (texts.str n) ≡ ok n
  pub no_dot : (n : ℕ) → has_char "." (texts.str n) ≡ false

-- A version without a minor version 0
abbrev pub without_zero : Version → Version
without_zero v = record { major = v.major; minor = kept v.minor }
  where
    kept : Option ℕ → Option ℕ
    kept none = none
    kept (some zero) = none
    kept (some (suc n)) = some (suc n)

module _ (texts : Texts) (h : IsDecimal texts) where
  one_number :
      (major : ℕ)
      → version_of texts (texts.str major ∷ []) ≡ ok (record { major = major; minor = none })
  unfolding version_of
  one_number major = rw (version_of, h.reads major) refl

  two_numbers :
      (major minor : ℕ)
      → version_of texts (texts.str major ∷ texts.str minor ∷ [])
        ≡ ok (record { major = major; minor = some minor })
  unfolding version_of
  two_numbers major minor = rw (version_of, h.reads major, h.reads minor) refl

  bare_text :
      (major : ℕ)
      → version_of texts (split_all "." (texts.str major <> ""))
        ≡ ok (record { major = major; minor = none })
  bare_text major =
      ap (λ s. version_of texts (split_all "." s)) (append-nil (texts.str major))
      ∙ ap (version_of texts) (split_all-one "." (texts.str major) (h.no_dot major))
      ∙ one_number major

  text_numbers :
      (major : ℕ) (minor : Option ℕ)
      → version_of texts (split_all "." (texts.str major <> minor_text texts minor))
        ≡ ok (without_zero (record { major = major; minor = minor }))
  text_numbers major none = bare_text major
  text_numbers major (some zero) = bare_text major
  text_numbers major (some (suc n)) =
      let last = split_all-one "." (texts.str (suc n)) (h.no_dot (suc n)) in
      let parts = split_all-first "." (texts.str major) (texts.str (suc n)) (h.no_dot major) in
      ap (λ s. version_of texts (split_all "." (texts.str major <> s)))
        (char-append "." (texts.str (suc n)))
      ∙ ap (version_of texts) (parts ∙ ap (λ rest. texts.str major ∷ rest) last)
      ∙ two_numbers major (suc n)

  -- The text of a version is parsed to that version, except that a minor version 0 is lost: the
  -- text of 9.0 is that of a system without a minor version, as CentOS Stream.
  pub version_of-version_text :
      (v : Version) → version_of texts (split_all "." (version_text texts v)) ≡ ok (without_zero v)
  unfolding version_text
  version_of-version_text v = text_numbers v.major v.minor

module _ {W : Type 0} (status : Call W (Option Bool)) (sleep : ℕ → Call W (Unit {0})) where
  module _ (count : W → ℕ) (s : Costs count 1 status)
      (p : (seconds : ℕ) → Costs count 0 (sleep seconds)) where
    unless_known-Costs :
        (n retries : ℕ) (next : Call W Bool) (o : Option Bool)
        → Costs count n next
        → Costs count n (unless_known status sleep retries next o)
    unless_known-Costs n retries next none k =
        more-Costs {m = 0 + n} {n = n} (omega arith)
          (bind-Costs (p (power_of_two retries)) (λ u. k))
    unless_known-Costs n retries next (some b) k =
        more-Costs {m = 0} {n = n} (omega arith) computed-Costs

    -- One more question, with what follows
    asked-Costs :
        (n retries : ℕ) (next : Call W Bool)
        → Costs count n next
        → Costs count (1 + n) (status >>= unless_known status sleep retries next)
    asked-Costs n retries next k = bind-Costs s (λ o. unless_known-Costs n retries next o k)

    -- The state of D-Bus is asked for three times at most, however the answers turn out.
    pub is_dbus_running-Costs : (w : W) → count (is_dbus_running status sleep w).1 ≤ count w + 3
    unfolding is_dbus_running dbus_loop
    is_dbus_running-Costs w =
        (asked-Costs 2 0 _ (asked-Costs 1 1 _ (asked-Costs 0 2 _ computed-Costs))).bound w
