-- ===== src/Subscription/Missing.antt =====
-- Which packages of subscription-manager are missing (convert2rhel/subscription.py).
use convert2rhel.Prelude.{
  String, Bool, true, not, ◌&&◌, ◌||◌, List, [], ◌∷◌, ◌++◌, has_items, contains, ◌==◌, string_eq,
  if◌then◌else◌, ok, ◌≡◌, refl, ◌∙◌, arith,
}
use convert2rhel.Prelude.Calls.{Call, ◌>>=◌, pure, bind-ok}
use convert2rhel.Subscription.Commands.{SubscriptionManager}
use convert2rhel.Subscription.Needed.{
  add_once, missing_pkgs, relevant_subscription_manager_pkgs, needed_subscription_manager_pkgs,
  Installing,
}

contains-append_one :
    (xs : List String) (x y : String) → contains (xs ++ (x ∷ [])) y ≡ (contains xs y || x == y)
contains-append_one [] x y = ground arith
contains-append_one (z ∷ xs) x y = ground (arith, contains-append_one xs x y)

same-contains :
    (xs : List String) (x y : String)
    → contains xs x ≡ true
    → (x == y) ≡ true
    → contains xs y ≡ true
same-contains xs x y h e = ground (arith, h, e)

contains-add_once :
    (xs : List String) (x y : String) → contains (add_once x xs) y ≡ (contains xs y || x == y)
contains-add_once xs x y = ground (arith, contains-append_one xs x y, same-contains xs x y)

module _ {W : Type 0} (sys : SubscriptionManager W) (found : String → List String) (w : W) where
  -- The packages that the system finds do not change.
  pub record IsStill : Type 0 where
    pub answer : (pkg : String) → sys.installed_pkgs pkg w ≡ (ok (found pkg), w)

  -- The loop, without the world
  abbrev collected : List String → List String → List String
  collected [] missing = missing
  collected (pkg ∷ pkgs) missing =
      collected pkgs (if has_items (found pkg) then missing else add_once pkg missing)

  missing_pkgs-collected :
      (pkgs missing : List String)
      → IsStill
      → missing_pkgs sys pkgs missing w ≡ (ok (collected pkgs missing), w)
  unfolding missing_pkgs
  missing_pkgs-collected [] missing h = refl
  missing_pkgs-collected (pkg ∷ pkgs) missing h =
      let next : List String → Call W (List String) = λ installed.
        missing_pkgs sys pkgs (if has_items installed then missing else add_once pkg missing) in
      bind-ok (sys.installed_pkgs pkg) next (h.answer pkg) ∙ missing_pkgs-collected pkgs _ h

  contains-collected :
      (pkgs missing : List String) (p : String)
      → contains (collected pkgs missing) p
        ≡ (contains missing p || (contains pkgs p && not (has_items (found p))))
  contains-collected [] missing p = ground arith
  contains-collected (pkg ∷ pkgs) missing p = ground (
    arith,
    contains-collected pkgs missing p,
    contains-collected pkgs (add_once pkg missing) p,
    contains-add_once missing pkg p,
  )

  -- Where the installed packages do not change meanwhile, and `list` gives a set in some order, a
  -- package is in what is returned exactly if it is one of the relevant ones and is not installed.
  pub needed_subscription_manager_pkgs_iff :
      (env : Installing W) (list_of_set : List String → List String) (json_c : Bool)
      → ((xs : List String) (p : String) → contains (list_of_set xs) p ≡ contains xs p)
      → IsStill
      → env.is_rpm_installed "json-c.i686" w ≡ (ok json_c, w)
      → (needed : List String) × (needed_subscription_manager_pkgs sys env list_of_set w
          ≡ (ok needed, w))
        × ((p : String)
            → contains needed p ≡ (
                contains (relevant_subscription_manager_pkgs env.major json_c) p
                && not (has_items (found p))))
  unfolding needed_subscription_manager_pkgs
  needed_subscription_manager_pkgs_iff env list_of_set json_c same h e =
      let relevant = relevant_subscription_manager_pkgs env.major json_c in
      let missing = collected relevant [] in
      let as_list : List String → Call W (List String) = λ found. pure (list_of_set found) in
      let next : Bool → Call W (List String) =
        λ j. missing_pkgs sys (relevant_subscription_manager_pkgs env.major j) [] >>= as_list in
      (
        list_of_set missing,
        bind-ok (env.is_rpm_installed "json-c.i686") next e
            ∙ bind-ok (missing_pkgs sys relevant []) as_list (missing_pkgs-collected relevant [] h),
        λ p. same missing p ∙ contains-collected relevant [] p,
      )
