-- ===== src/Prelude/Text.antt =====
-- Python's `str` methods, on the characters of a text.
use Prim.Native.Char.{code}
pub use Prim.Native.Char.{Char}
use Prim.Native.String.{String, ◌++◌ as ◌<>◌}
pub use Prim.Native.String.{count}
use mathlib.Core.Path.{◌≡◌, refl, ap, ◌∙◌}
use mathlib.Core.Bool.{Bool, true, false, ◌&&◌, ◌||◌, not}
use mathlib.Core.Option.{Option, none, some}
use mathlib.Core.List.{List, [], ◌∷◌}
use native.Mathlib.Omega.{arith}
use text.Mathlib.TextEquality.{Char-path}
pub use text.Mathlib.TextLemmas.{
  cons-append, nil-append, append-nil, append_assoc, length-append, length-cons,
}
use convert2rhel.Prelude.Equality.{◌==◌, string_eq, nat_eq, if◌then◌else◌}

-- `c == d`, of characters
abbrev pub same_char : Char → Char → Bool
same_char c d = code c == code d

pub same_char_self : (c : Char) → same_char c c ≡ true
same_char_self c = ground arith

-- `d in s`
unfoldable pub has_char : Char → String → Bool
has_char d String.[] = false
has_char d (String.◌∷◌ c s) = same_char c d || has_char d s

-- Every character passes the test.
unfoldable pub all_chars : (Char → Bool) → String → Bool
all_chars test String.[] = true
all_chars test (String.◌∷◌ c s) = test c && all_chars test s

-- `s.split(d, 1)`, where the separator is there
unfoldable pub split_first : Char → String → Option (String × String)
split_first d String.[] = none
split_first d (String.◌∷◌ c s) =
    let rest = split_first d s in
    if same_char c d
    then some ("", s)
    else elim rest [ none ↦ none | some (x, y) ↦ some (String.◌∷◌ c x, y) ]

-- `s.rsplit(d, 1)`, where the separator is there
unfoldable pub split_last : Char → String → Option (String × String)
split_last d String.[] = none
split_last d (String.◌∷◌ c s) = elim (split_last d s) [
  | some (x, y) ↦ some (String.◌∷◌ c x, y)
  | none ↦ if same_char c d then some ("", s) else none
]

-- `s.split(d)`
unfoldable pub split_all : Char → String → List String
split_all d String.[] = "" ∷ []
split_all d (String.◌∷◌ c s) =
    let rest = split_all d s in
    if same_char c d
    then "" ∷ rest
    else elim rest [ [] ↦ String.◌∷◌ c "" ∷ [] | x ∷ xs ↦ String.◌∷◌ c x ∷ xs ]

-- `s.endswith(t)`
unfoldable pub ends_with : String → String → Bool
ends_with t String.[] = "" == t
ends_with t (String.◌∷◌ c s) = String.◌∷◌ c s == t || ends_with t s

ends_with_self : (t : String) → ends_with t t ≡ true
unfolding ends_with
ends_with_self String.[] = ground arith
ends_with_self (String.◌∷◌ c t) = ground arith

pub split_first-append :
    (d : Char) (x y : String)
    → has_char d x ≡ false
    → split_first d (x <> (String.◌∷◌ d y)) ≡ some (x, y)
unfolding split_first has_char
split_first-append d String.[] y h =
    rw (nil-append (String.◌∷◌ d y)) (ground (arith, same_char_self d))
split_first-append d (String.◌∷◌ c x) y h =
    rw (cons-append c x (String.◌∷◌ d y)) (ground (arith, h, split_first-append d x y))

split_last-none : (d : Char) (s : String) → has_char d s ≡ false → split_last d s ≡ none
unfolding split_last has_char
split_last-none d String.[] h = refl
split_last-none d (String.◌∷◌ c s) h = ground (arith, split_last-none d s)

pub split_last-append :
    (d : Char) (x y : String)
    → has_char d y ≡ false
    → split_last d (x <> (String.◌∷◌ d y)) ≡ some (x, y)
unfolding split_last
split_last-append d String.[] y h =
    rw (nil-append (String.◌∷◌ d y)) (ground (arith, split_last-none d y h, same_char_self d))
split_last-append d (String.◌∷◌ c x) y h =
    rw (cons-append c x (String.◌∷◌ d y)) (ground (arith, split_last-append d x y h))

-- One character in front of a text
pub char-append : (d : Char) (y : String) → String.◌∷◌ d "" <> y ≡ String.◌∷◌ d y
char-append d y = cons-append d "" y ∙ ap (λ t. String.◌∷◌ d t) (nil-append y)

pub has_char-append :
    (d : Char) (x y : String) → has_char d (x <> y) ≡ (has_char d x || has_char d y)
unfolding has_char
has_char-append d String.[] y = rw (nil-append y) refl
has_char-append d (String.◌∷◌ c x) y =
    rw (cons-append c x y) (ground (arith, has_char-append d x y))

pub ends_with-append : (x t : String) → ends_with t (x <> t) ≡ true
unfolding ends_with
ends_with-append String.[] t = rw (nil-append t) (ends_with_self t)
ends_with-append (String.◌∷◌ c x) t = rw (cons-append c x t) (ground (arith, ends_with-append x t))

pub same_char-path : (c d : Char) → same_char c d ≡ true → c ≡ d
same_char-path c d h = Char-path c d (ground (arith, h))

-- `s.startswith(t)`
unfoldable pub starts_with : String → String → Bool
starts_with String.[] s = true
starts_with (String.◌∷◌ c t) String.[] = false
starts_with (String.◌∷◌ c t) (String.◌∷◌ d s) = same_char c d && starts_with t s

-- `t in s`
unfoldable pub has_text : String → String → Bool
has_text t String.[] = "" == t
has_text t (String.◌∷◌ c s) = starts_with t (String.◌∷◌ c s) || has_text t s

pub starts_with-append : (t s : String) → starts_with t (t <> s) ≡ true
unfolding starts_with
starts_with-append String.[] s = refl
starts_with-append (String.◌∷◌ c t) s =
    rw (cons-append c t s) (ground (arith, same_char_self c, starts_with-append t s))

-- The texts differ at a place that both have.
unfoldable pub clash : String → String → Bool
clash String.[] s = false
clash (String.◌∷◌ c t) String.[] = false
clash (String.◌∷◌ c t) (String.◌∷◌ d s) = not (same_char c d) || clash t s

pub clash-starts_with : (t s y : String) → clash t s ≡ true → starts_with t (s <> y) ≡ false
unfolding starts_with clash
clash-starts_with String.[] s y h = cc
clash-starts_with (String.◌∷◌ c t) String.[] y h = cc
clash-starts_with (String.◌∷◌ c t) (String.◌∷◌ d s) y h =
    rw (cons-append d s y) (ground (arith, h, clash-starts_with t s y))
