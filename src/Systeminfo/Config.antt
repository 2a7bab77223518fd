-- ===== src/Systeminfo/Config.antt =====
-- The options of the configuration file of a system (convert2rhel/systeminfo.py).
use convert2rhel.Prelude.{
  String, Bool, Option, none, some, List, [], ◌∷◌, string_eq, Result, ok, raise, attribute_error,
  if◌then◌else◌,
}
use convert2rhel.Prelude.Dict.{Dict, lookup, insert}
use convert2rhel.Prelude.Text.{split_all}
use convert2rhel.Systeminfo.Version.{Texts}

abbrev pub Content : Type 0
Content = Dict String String

-- `_get_cfg_opt`: an option that is missing is None.
unfoldable pub get_cfg_opt : String → Content → Option String
get_cfg_opt name content = lookup name content

module _ (texts : Texts) where
  -- `value.split()`
  abbrev pub words_of : Option String → Result (List String)
  words_of none = raise attribute_error
  words_of (some value) = ok (texts.words value)

  -- The lists of packages, of repositories, of keys and of modules
  unfoldable pub get_cfg_words : String → Content → Result (List String)
  get_cfg_words name content = words_of (get_cfg_opt name content)

  -- `old_package, new_package = tuple(line.split("|"))`
  abbrev pub pair_of : List String → Option (String × String)
  pair_of (old ∷ new ∷ []) = some (texts.strip old, texts.strip new)
  pair_of parts = none

  -- The loop of `_get_swap_pkgs`, up to a line that is no pair
  unfoldable pub swap_lines : List String → Dict String String → Dict String String
  swap_lines [] pkgs = pkgs
  swap_lines (line ∷ lines) pkgs = elim (pair_of (split_all "|" line)) [
    | none ↦ pkgs
    | some (old, new) ↦ swap_lines lines (insert old new pkgs)
  ]

  abbrev pub swapped : Option String → Dict String String
  swapped none = []
  swapped (some value) = swap_lines (split_all "\n" (texts.strip value)) []

  -- `_get_swap_pkgs`, which handles the ValueError of the loop and the AttributeError of None.
  unfoldable pub get_swap_pkgs : Content → Dict String String
  get_swap_pkgs content = swapped (get_cfg_opt "swap_pkgs" content)

-- `get_enabled_rhel_repos`
abbrev pub get_enabled_rhel_repos : Bool → List String → List String → List String
get_enabled_rhel_repos no_rhsm submgr_enabled_repos enablerepo =
    if no_rhsm then enablerepo else submgr_enabled_repos
