-- ===== src/Toolopts/Values.antt =====
-- The values of options and the attributes of Python objects, as far as
-- convert2rhel/toolopts/__init__.py and convert2rhel/toolopts/config.py use them.
use convert2rhel.Prelude.{
  String, Bool, true, false, none, some, List, truthy, has_items, ◌==◌, string_eq, Result, ok,
  raise, attribute_error,
}
use convert2rhel.Prelude.Dict.{Dict, lookup}

pub data Value : Type 0 where
  nothing : Value
  flag : Bool → Value
  text : String → Value
  texts : List String → Value

-- `bool(value)`
abbrev pub truth : Value → Bool
truth nothing = false
truth (flag b) = b
truth (text s) = truthy s
truth (texts ss) = has_items ss

-- `value == "..."`
abbrev pub equals_text : String → Value → Bool
equals_text s (text t) = s == t
equals_text s _ = false

-- The attributes of an object, `vars(self)`
abbrev pub Attributes : Type 0
Attributes = Dict String Value

-- `self.key`
unfoldable pub attribute : String → Attributes → Result Value
attribute key self = elim (lookup key self) [ none ↦ raise attribute_error | some v ↦ ok v ]

-- `a and b` and `a or b`, where the right side is read only if it decides.
abbrev pub both : Result Bool → Result Bool → Result Bool
both (ok true) r = r
both r _ = r

abbrev pub either : Result Bool → Result Bool → Result Bool
either (ok false) r = r
either r _ = r

-- `bool(self.key)`
unfoldable pub is_set : String → Attributes → Result Bool
is_set key self = elim (lookup key self) [ none ↦ raise attribute_error | some v ↦ ok (truth v) ]
