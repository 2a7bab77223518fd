-- ===== src/Utils/Flatten.antt =====
-- Nested dictionaries: flatten of convert2rhel/utils/__init__.py.
use convert2rhel.Prelude.{
  ℕ, suc, String, ◌<>◌, List, [], ◌∷◌, ◌++◌, truthy, string_eq, if◌then◌else◌,
}
use convert2rhel.Prelude.Dict.{Dict, insert}

mutual
  -- A value of a dictionary; the values that are neither dicts nor lists are texts.
  pub data Json : Type 0 where
    leaf : String → Json
    object : Fields → Json
    array : Items → Json

  pub data Fields : Type 0 where
    no_fields : Fields
    field : String → Json → Fields → Fields

  pub data Items : Type 0 where
    no_items : Items
    item : Json → Items → Items

-- `dict(items)`: a key keeps its place and takes its last value.
unfoldable pub to_dict : List (String × String) → Dict String String → Dict String String
to_dict [] d = d
to_dict ((k, v) ∷ rest) d = to_dict rest (insert k v d)

-- `str(parent_key) + separator + key if parent_key else key`
abbrev pub new_key : String → String → String → String
new_key parent separator key = if truthy parent then parent <> (separator <> key) else key

module _ (str : ℕ → String) where
  unfoldable mutual
    -- The items of one value under its new key; a list drops the separator.
    pub flatten_value : String → String → Json → List (String × String)
    flatten_value key separator (leaf v) = (key, v) ∷ []
    flatten_value key separator (object no_fields) = (key, "null") ∷ []
    flatten_value key separator (object (field k v rest)) =
        to_dict
          (flatten_value (new_key key separator k) separator v ++ flatten_fields key separator rest)
          []
    flatten_value key separator (array no_items) = (key, "null") ∷ []
    flatten_value key separator (array (item v rest)) = flatten_items key 0 (item v rest)

    pub flatten_fields : String → String → Fields → List (String × String)
    flatten_fields parent separator no_fields = []
    flatten_fields parent separator (field k v rest) =
        flatten_value (new_key parent separator k) separator v
        ++ flatten_fields parent separator rest

    pub flatten_items : String → ℕ → Items → List (String × String)
    flatten_items parent index no_items = []
    flatten_items parent index (item v rest) =
        to_dict (flatten_value (new_key parent "." (str index)) "." v) []
        ++ flatten_items parent (suc index) rest

  -- `flatten`; the parent key of the first call is False.
  unfoldable pub flatten : Fields → String → Dict String String
  flatten fields separator = to_dict (flatten_fields "" separator fields) []
