-- ===== src/Repos/Laws.antt =====
-- That the check of the repositories ends, and what it leaves (convert2rhel/repo.py).
use convert2rhel.Prelude.{
  ℕ, zero, suc, String, true, Option, none, some, List, [], ◌∷◌, length, contains, ◌==◌, string_eq,
  nat_eq, ◌≤◌, Result, ok, raise, ◌≡◌, refl, arith, all, ap, Gives, map-Gives, Bool-cases, inl, inr,
}
use convert2rhel.Repos.{
  Yum, Check, finished, again, repo_to_remove, remove_repo, as_check, without_repo, after_call,
  check_once, valid_repos, call_yum_cmd, makecache,
}

module _ {W : Type 0} (yum : Yum W) where
  -- One repository less, and no new one
  abbrev IsLess : List String → List String → Type 0
  IsLess repos rest = (suc (length rest) ≡ length repos) × (all (contains repos) rest ≡ true)

  contains-weaken :
      (r : String) (repos rest : List String)
      → all (contains repos) rest ≡ true
      → all (contains (r ∷ repos)) rest ≡ true
  contains-weaken r repos [] h = refl
  contains-weaken r repos (x ∷ rest) h = ground (arith, h, contains-weaken r repos rest)

  contains_self : (repos : List String) → all (contains repos) repos ≡ true
  contains_self [] = refl
  contains_self (r ∷ repos) = ground (arith, contains-weaken r repos repos (contains_self repos))

  contains_of_all :
      (repos rest : List String) (x : String)
      → all (contains repos) rest ≡ true
      → contains rest x ≡ true
      → contains repos x ≡ true
  contains_of_all repos [] x h k = cc
  contains_of_all repos (y ∷ rest) x h k = elim (Bool-cases (x == y)) [
    | inl e ↦ ground (arith, e, h)
    | inr e ↦ ground (arith, e, k, h, contains_of_all repos rest x)
  ]

  contains-all_trans :
      (repos rest less : List String)
      → all (contains repos) rest ≡ true
      → all (contains rest) less ≡ true
      → all (contains repos) less ≡ true
  contains-all_trans repos rest [] h k = refl
  contains-all_trans repos rest (x ∷ less) h k =
      ground (arith, contains_of_all repos rest x h, k, contains-all_trans repos rest less h)

  kept :
      (r : String) (repos : List String) (removed : Result (List String))
      → Gives (IsLess repos) removed
      → Gives (IsLess (r ∷ repos)) (elim removed [ ok rs ↦ ok (r ∷ rs) | raise e ↦ raise e ])
  kept r repos (raise e) g = tt
  kept r repos (ok rs) g = (ap suc g.0, ground (arith, contains-weaken r repos rs g.1))

  remove_repo-IsLess :
      (repo : String) (repos : List String) → Gives (IsLess repos) (remove_repo yum repo repos)
  unfolding remove_repo
  remove_repo-IsLess repo [] = tt
  remove_repo-IsLess repo (r ∷ repos) = elim (Bool-cases (r == repo)) [
    | inl e ↦ rw e (refl, contains-weaken r repos repos (contains_self repos))
    | inr e ↦ rw e (kept r repos (remove_repo yum repo repos) (remove_repo-IsLess repo repos))
  ]

  -- A call that goes on does so for fewer of the repositories.
  abbrev Fewer : List String → Check → Type 0
  Fewer repos (finished r) = Gives (λ rest. all (contains repos) rest ≡ true) r
  Fewer repos (again rest) = IsLess repos rest

  as_check-Fewer :
      (repos : List String) (r : Result (List String))
      → Gives (IsLess repos) r
      → Fewer repos (as_check yum r)
  as_check-Fewer repos (ok rest) g = g
  as_check-Fewer repos (raise e) g = tt

  without_repo-Fewer :
      (repos : List String) (repo : Option String) → Fewer repos (without_repo yum repos repo)
  without_repo-Fewer repos none = contains_self repos
  without_repo-Fewer repos (some repo) =
      as_check-Fewer repos (remove_repo yum repo repos) (remove_repo-IsLess repo repos)

  after_call-Fewer :
      (repos : List String) (r : Result (String × ℕ)) → Fewer repos (after_call yum repos r)
  after_call-Fewer repos (raise e) = tt
  after_call-Fewer repos (ok answer) = without_repo-Fewer repos (repo_to_remove yum answer)

  check_once-Fewer : (repos : List String) (w : W) → Fewer repos ((check_once yum repos w).0)
  unfolding check_once
  check_once-Fewer repos w = after_call-Fewer repos ((call_yum_cmd yum (makecache yum repos) w).0)

  -- The check has come to a result, with some of the repositories.
  abbrev Ends : List String → Option (Result (List String) × W) → Type 0
  Ends repos x =
      (r : Result (List String)) × (w' : W) × (x ≡ some (r, w'))
      × Gives (λ rest. all (contains repos) rest ≡ true) r

  -- What follows a call, as in `valid_repos`
  abbrev follow : ℕ → Check → W → Option (Result (List String) × W)
  follow bound check w = elim check [
    | finished x ↦ some (x, w)
    | again rest ↦ valid_repos yum bound rest w
  ]

  follow-Ends :
      (bound : ℕ) (repos : List String) (check : Check) (w : W)
      → length repos ≤ suc bound
      → Fewer repos check
      → ((rest : List String) → length rest ≤ bound → Ends rest (valid_repos yum bound rest w))
      → Ends repos (follow bound check w)
  follow-Ends bound repos (finished x) w h f next = (x, w, refl, f)
  follow-Ends bound repos (again rest) w h f next =
      let (r, w', e, g) = next rest (omega (arith, h, f.0)) in
      (
        r,
        w',
        e,
        map-Gives (λ less. all (contains rest) less ≡ true)
            (λ less. all (contains repos) less ≡ true) r
            (λ less k. contains-all_trans repos rest less f.1 k) g,
      )

  -- On a bound of as many calls as there are repositories, the check ends by itself, and the
  -- repositories that it returns are some of those that were given.
  pub valid_repos-ends :
      (bound : ℕ) (repos : List String) (w : W)
      → length repos ≤ bound
      → (r : Result (List String)) × (w' : W) × (valid_repos yum bound repos w ≡ some (r, w'))
        × Gives (λ rest. all (contains repos) rest ≡ true) r
  unfolding valid_repos
  valid_repos-ends bound [] w h = (ok [], w, refl, refl)
  valid_repos-ends zero (r ∷ repos) w h = absurd (omega (arith, h))
  valid_repos-ends (suc bound) (r ∷ repos) w h =
      let c = check_once yum (r ∷ repos) w in
      follow-Ends bound (r ∷ repos) c.0 c.1 h (check_once-Fewer (r ∷ repos) w)
        (λ rest k. valid_repos-ends bound rest c.1 k)
