-- ===== src/Utils/Format.antt =====
-- Texts for messages: `str.join`, and `format_sequence_as_message` of
-- convert2rhel/utils/__init__.py.
use convert2rhel.Prelude.{String, ◌<>◌, List, [], ◌∷◌}

-- `separator.join(items)`
unfoldable pub join : String → List String → String
join separator [] = ""
join separator (x ∷ []) = x
join separator (x ∷ y ∷ rest) = x <> (separator <> join separator (y ∷ rest))

-- The items but the last, behind the first two, and the last.
all_but_last : String → List String → List String
all_but_last x [] = []
all_but_last x (y ∷ rest) = x ∷ all_but_last y rest

last_of : String → List String → String
last_of x [] = x
last_of x (y ∷ rest) = last_of y rest

unfoldable pub format_sequence_as_message : List String → String
unfolding join all_but_last last_of
format_sequence_as_message [] = ""
format_sequence_as_message (x ∷ []) = x
format_sequence_as_message (x ∷ y ∷ []) = join " and " (x ∷ y ∷ [])
format_sequence_as_message (x ∷ y ∷ z ∷ rest) =
    join ", " (x ∷ y ∷ all_but_last z rest) <> (", and " <> last_of z rest)
