-- ===== src/Utils/Tests.antt =====
-- Runs on short command lines and lists of packages (convert2rhel/utils/__init__.py).
use convert2rhel.Prelude.{
  String, true, false, List, [], ◌∷◌, ◌==◌, string_eq, nat_eq, leb, ◌&&◌, ok, raise, critical_error,
  if◌then◌else◌, ◌≡◌, refl,
}
use Prim.Native.Char.{code}
use convert2rhel.Prelude.Dict.{insert}
use convert2rhel.Prelude.Text.{starts_with}
use convert2rhel.Utils.Secrets.{hide_in_one, hide_args, hide_secrets}
use convert2rhel.Utils.Secrets.Laws.{SameButSecrets, ended, two, one, other, hide_secrets-hides}
use convert2rhel.Utils.Remove.{
  Rpm, first_line, behind_epoch, remove_epoch, remove_each, remove_pkgs, remove_pkgs-removes_all,
}
use convert2rhel.Utils.Flatten.{
  no_fields, field, object, array, item, no_items, leaf, to_dict, flatten_value, flatten,
}

program : Unit {0}
unfolding starts_with hide_in_one hide_args hide_secrets first_line behind_epoch remove_epoch
    remove_each remove_pkgs insert to_dict flatten_value flatten string_eq nat_eq
program = tt

same_but_secrets :
    SameButSecrets
      ("convert" ∷ "-u" ∷ "me" ∷ "--password=one" ∷ [])
      ("convert" ∷ "-u" ∷ "you" ∷ "--password=two" ∷ [])
unfolding program
same_but_secrets =
    other "convert" _ _ refl
      (two "-u" "me" "you" _ _ refl (one "--password" "one" "two" [] [] refl ended))

hide_secrets-hides_example :
    hide_secrets ("convert" ∷ "-u" ∷ "me" ∷ "--password=one" ∷ [])
    ≡ hide_secrets ("convert" ∷ "-u" ∷ "you" ∷ "--password=two" ∷ [])
hide_secrets-hides_example = hide_secrets-hides _ _ same_but_secrets

secrets_are_hidden :
    hide_secrets ("convert" ∷ "-u" ∷ "me" ∷ "--password=one" ∷ [])
    ≡ "convert" ∷ "-u" ∷ "*****" ∷ "--password=*****" ∷ []
unfolding program
secrets_are_hidden = refl

-- A parameter that is joined to a short option, or that stands behind a shortened long one, shows.
secrets_that_show :
    hide_secrets ("-psecret" ∷ "--passw" ∷ "secret" ∷ []) ≡ "-psecret" ∷ "--passw" ∷ "secret" ∷ []
unfolding program
secrets_that_show = refl

-- A world of the packages that were asked for; one of them stays.
abbrev rpm : Rpm (List String)
rpm = record {
  is_digit = λ c. leb 48 (code c) && leb (code c) 57;
  erase = λ nvra w. ((if nvra == "kernel" then 1 else 0), nvra ∷ w);
}

failed_removal_raises :
    (remove_pkgs rpm ("7:release" ∷ "kernel" ∷ []) true []).0 ≡ raise critical_error
unfolding program
failed_removal_raises = remove_pkgs-removes_all rpm ("7:release" ∷ "kernel" ∷ []) []

epochs_are_removed :
    remove_pkgs rpm ("7:release" ∷ "kernel" ∷ "b-1:2" ∷ []) false []
    ≡ (ok ("7:release" ∷ "b-1:2" ∷ []), "b-1:2" ∷ "kernel" ∷ "release" ∷ [])
unfolding program
epochs_are_removed = refl

-- Items of a list are joined to its key by a dot, whatever the separator is.
separator_of_lists :
    flatten
      (λ n. "0")
      (field "a" (object (field "b" (array (item (leaf "x") no_items)) no_fields)) no_fields)
      "/"
    ≡ ("a/b.0", "x") ∷ []
unfolding program
separator_of_lists = refl
