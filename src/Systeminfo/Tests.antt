-- ===== src/Systeminfo/Tests.antt =====
-- Runs of convert2rhel/systeminfo.py on versions and on a world that counts questions.
use convert2rhel.Prelude.{
  ℕ, zero, suc, ◌≤◌, String, false, none, some, List, [], ◌∷◌, ◌==◌, string_eq, nat_eq, ok,
  if◌then◌else◌, ◌≡◌, refl, ap, arith,
}
use convert2rhel.Prelude.Text.{has_char, split_all}
use convert2rhel.Prelude.Dict.{lookup, insert}
use convert2rhel.Prelude.Calls.{pure}
use convert2rhel.Systeminfo.Version.{Version, Texts, version_text, get_releasever, version_of}
use convert2rhel.Systeminfo.Config.{get_cfg_opt, swap_lines, get_swap_pkgs}
use convert2rhel.Systeminfo.Services.{is_dbus_running}
use convert2rhel.Systeminfo.Laws.{IsDecimal, version_of-version_text, is_dbus_running-Costs}

program : Unit {0}
unfolding has_char split_all lookup insert version_text get_releasever version_of get_cfg_opt
    swap_lines get_swap_pkgs string_eq nat_eq
program = tt

-- Numbers in strokes
abbrev strokes : ℕ → String
strokes zero = ""
strokes (suc n) = String.◌∷◌ "1" (strokes n)

abbrev read : String → ℕ
read String.[] = zero
read (String.◌∷◌ c s) = suc (read s)

abbrev texts : Texts
texts = record {
  str = strokes;
  int = λ s. ok (read s);
  words = λ s. s ∷ [];
  lower = λ s. s;
  strip = λ s. s;
  match_release = λ s. none;
}

read-strokes : (n : ℕ) → read (strokes n) ≡ n
read-strokes zero = refl
read-strokes (suc n) = ap suc (read-strokes n)

strokes_no_dot : (n : ℕ) → has_char "." (strokes n) ≡ false
unfolding program
strokes_no_dot zero = refl
strokes_no_dot (suc n) = strokes_no_dot n

texts-IsDecimal : IsDecimal texts
texts-IsDecimal = record { reads = λ n. ap ok (read-strokes n); no_dot = strokes_no_dot }

abbrev two_zero : Version
two_zero = record { major = 2; minor = some 0 }

version_of-version_text_example :
    version_of texts (split_all "." (version_text texts two_zero))
    ≡ ok (record { major = 2; minor = none })
version_of-version_text_example = version_of-version_text texts texts-IsDecimal two_zero

-- A system of version 9.0, where `str` gives the digits of 9
abbrev digits : Texts
digits = record texts { str = λ n. if n == 9 then "9" else "0" }

releasever_of_zero : get_releasever digits none (record { major = 9; minor = some 0 }) ≡ ok "9"
unfolding program
releasever_of_zero = refl

-- The pairs in front of a line that is no pair are kept.
abbrev partly_swapped : List (String × String)
partly_swapped = ("old", "new") ∷ []

swap_pkgs_partly : get_swap_pkgs texts (("swap_pkgs", "old|new\nnonsense") ∷ []) ≡ partly_swapped
unfolding program
swap_pkgs_partly = refl

dbus_asked_three_times :
    (is_dbus_running {W = ℕ} (λ w. (ok none, suc w)) (λ seconds. pure tt) 0).1 ≤ 3
dbus_asked_three_times =
    is_dbus_running-Costs (λ w. (ok none, suc w)) (λ seconds. pure tt) (λ w. w)
      (record { bound = λ w. omega arith }) (λ seconds. record { bound = λ w. omega arith }) 0
