-- ===== src/Prelude/Truth.antt =====
-- Python's truth values and defaults of texts that may be `None`.
use Prim.Native.String.{String, ◌++◌ as ◌<>◌}
use text.Mathlib.TextLemmas.{append-eq-nil_iff}
use native.Mathlib.Omega.{arith}
use mathlib.Core.Path.{◌≡◌}
use mathlib.Core.Bool.{Bool, true, false, not}
use mathlib.Core.Option.{Option, none, some}
use convert2rhel.Prelude.Equality.{◌==◌, string_eq}

-- `bool(text)`
abbrev pub truthy : String → Bool
truthy s = not (s == "")

-- `bool(value)` for a text or `None`
abbrev pub given : Option String → Bool
given none = false
given (some s) = truthy s

-- `value or ""`
abbrev pub or_empty : Option String → String
or_empty none = ""
or_empty (some s) = s

-- A text that begins with a character is true, whatever follows.
pub truthy-append : (s t : String) → truthy s ≡ true → truthy (s <> t) ≡ true
truthy-append s t h = ground (arith, append-eq-nil_iff {p = s} {q = t})
