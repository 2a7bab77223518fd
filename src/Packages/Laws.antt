-- ===== src/Packages/Laws.antt =====
-- The name of a package, printed and parsed (convert2rhel/pkghandler.py).
use convert2rhel.Prelude.{
  String, ◌<>◌, Bool, true, false, not, ◌||◌, ◌==◌, string_eq, nat_eq, ◌≡◌, refl, ap, arith,
  Bool-cases, inl, inr,
}
use convert2rhel.Prelude.Text.{
  Char, same_char, has_char, all_chars, same_char-path, cons-append, nil-append,
}
use convert2rhel.Packages.Parse.{Manager, class_to_end, matches_class, digits_colon, is_nevra}

-- A text of one or more characters that pass a test
pub record IsClass (test : Char → Bool) (s : String) : Type 0 where
  pub some_char : (s == "") ≡ false
  pub every_char : all_chars test s ≡ true

class_to_end-all :
    (test : Char → Bool) (s : String) → all_chars test s ≡ true → class_to_end test s ≡ true
unfolding class_to_end all_chars
class_to_end-all test String.[] h = refl
class_to_end-all test (String.◌∷◌ c s) h = ground (arith, h, class_to_end-all test s)

pub IsClass-matches :
    (test : Char → Bool) (s : String) → IsClass test s → matches_class test s ≡ true
unfolding matches_class all_chars
IsClass-matches test String.[] h = ground (arith, h.some_char)
IsClass-matches test (String.◌∷◌ c s) h = ground (arith, h.every_char, class_to_end-all test s)

pub has_char-all :
    (test : Char → Bool) (d : Char) (s : String)
    → test d ≡ false
    → all_chars test s ≡ true
    → has_char d s ≡ false
unfolding has_char all_chars
has_char-all test d String.[] n h = refl
has_char-all test d (String.◌∷◌ c s) n h = elim (Bool-cases (same_char c d)) [
  | inl e ↦ let p = same_char-path c d e in ground (arith, h, n, ap test p)
  | inr e ↦ ground (arith, e, h, has_char-all test d s n)
]

module _ (manager : Manager) where
  pub digits_colon-append :
      (seen : Bool) (s y : String)
      → all_chars manager.is_digit s ≡ true
      → (seen || not (s == "")) ≡ true
      → digits_colon manager seen (s <> (String.◌∷◌ ":" y)) ≡ true
  unfolding digits_colon all_chars
  digits_colon-append seen String.[] y h k = rw (nil-append (String.◌∷◌ ":" y)) (ground (arith, k))
  digits_colon-append seen (String.◌∷◌ c s) y h k =
      rw (cons-append c s (String.◌∷◌ ":" y)) (ground (arith, h, digits_colon-append true s y))

  pub is_nevra-append :
      (x y : String) → is_nevra manager y ≡ true → is_nevra manager (x <> y) ≡ true
  unfolding is_nevra
  is_nevra-append String.[] y h = rw (nil-append y) h
  is_nevra-append (String.◌∷◌ c x) y h =
      rw (cons-append c x y) (ground (arith, is_nevra-append x y h))
