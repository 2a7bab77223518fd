-- ===== src/Packages/Between.antt =====
-- The texts of which a printed package name is made (convert2rhel/pkghandler.py).
use convert2rhel.Prelude.{
  suc, ◌+◌, String, ◌<>◌, true, false, some, string_eq, nat_eq, ◌≡◌, sym, ap, ◌∙◌, arith,
}
use convert2rhel.Prelude.Text.{
  Char, same_char, has_char, ends_with, count, char-append, has_char-append, ends_with-append,
  append_assoc, cons-append, length-append, length-cons,
}
use convert2rhel.Packages.{get_pkg_nevra, epoch_text}

-- Two texts with a character between them
abbrev pub between : String → Char → String → String
between x d y = x <> (String.◌∷◌ d y)

abbrev pub printed : (name epoch version release arch : String) → String
printed name epoch version release arch =
    between (between name "-" (between epoch ":" version)) "-" (between release "." arch)

pub between_assoc :
    (x y z : String) (c d : Char) → between (between x c y) d z ≡ between x c (between y d z)
between_assoc x y z c d =
    append_assoc x (String.◌∷◌ c y) (String.◌∷◌ d z)
    ∙ ap (λ t. x <> t) (cons-append c y (String.◌∷◌ d z))

pub get_pkg_nevra-printed :
    (name epoch version release arch : String)
    → get_pkg_nevra false
        (record {
          name = name;
          epoch = epoch;
          version = version;
          release = release;
          arch = some arch;
        })
        true
      ≡ printed name epoch version release arch
unfolding get_pkg_nevra
get_pkg_nevra-printed name epoch version release arch =
    let with_epoch : epoch_text epoch true ≡ epoch <> ":" = ground arith in
    let tail = between release "." arch in
    let inner = between version "-" tail in
    let right : between name "-" (between epoch ":" inner)
        ≡ printed name epoch version release arch =
      sym (
        between_assoc name (between epoch ":" version) tail "-" "-"
        ∙ ap (λ t. between name "-" t) (between_assoc epoch version tail ":" "-")) in
    rw
      (
        char-append "." arch,
        char-append "-" tail,
        with_epoch,
        append_assoc epoch ":" inner,
        char-append ":" inner,
        char-append "-" (between epoch ":" inner),
      )
      right

pub count-between : (x y : String) (d : Char) → count (between x d y) ≡ count x + suc (count y)
count-between x y d = length-append x (String.◌∷◌ d y) ∙ ap (λ n. count x + n) (length-cons d y)

pub count-printed :
    (name epoch version release arch : String)
    → count (printed name epoch version release arch)
      ≡ count name + count epoch + count version + count release + count arch + 4
count-printed name epoch version release arch = omega (
  arith,
  count-between (between name "-" (between epoch ":" version)) (between release "." arch) "-",
  count-between name (between epoch ":" version) "-",
  count-between epoch version ":",
  count-between release arch ".",
)

pub has_char-between :
    (d e : Char) (x y : String)
    → has_char d x ≡ false
    → same_char e d ≡ false
    → has_char d y ≡ false
    → has_char d (between x e y) ≡ false
unfolding has_char
has_char-between d e x y h n k = ground (arith, has_char-append d x (String.◌∷◌ e y), h, n, k)

pub ends_with-between : (x t : String) (d : Char) → ends_with t (between x d t) ≡ true
ends_with-between x t d =
    let apart : between x d t ≡ (x <> String.◌∷◌ d "") <> t =
      sym (append_assoc x (String.◌∷◌ d "") t ∙ ap (λ u. x <> u) (char-append d t)) in
    rw apart (ends_with-append (x <> String.◌∷◌ d "") t)
