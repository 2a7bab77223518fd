-- ===== src/Repos/Tests.antt =====
-- Runs on a system that names one repository that cannot be reached (convert2rhel/repo.py).
use convert2rhel.Prelude.{
  ℕ, ◌+◌, String, true, false, some, List, [], ◌∷◌, contains, all, ◌==◌, string_eq, nat_eq, Result,
  ok, raise, value_error, Gives, if◌then◌else◌, ◌≡◌, refl, arith,
}
use convert2rhel.Repos.{
  Yum, releasever_args, yum_command, call_yum_cmd, remove_repo, check_once, valid_repos,
}
use convert2rhel.Repos.Laws.{valid_repos-ends}

program : Unit {0}
unfolding releasever_args yum_command call_yum_cmd remove_repo check_once valid_repos string_eq
    nat_eq
program = tt

-- A world that counts the calls; the first fails, and names the repository.
abbrev failing : String → Yum ℕ
failing repo = record {
  disablerepo = "*" ∷ [];
  enablerepo = [];
  no_rhsm = true;
  is_dnf = false;
  releasever = some "7";
  major = 7;
  str = λ n. "7";
  enabled_rhel_repos = [];
  run_subprocess = λ cmd w. (("", (if w == 0 then 1 else 0)), w + 1);
  has_nothing_to_do = λ s. false;
  problematic_repo = λ s. some repo;
}

valid_repos-ends_example :
    (r : Result (List String)) × (w' : ℕ) × (valid_repos (failing "a") 2 ("a" ∷ "b" ∷ []) 0
      ≡ some (r, w'))
    × Gives (λ rest. all (contains ("a" ∷ "b" ∷ [])) rest ≡ true) r
unfolding program
valid_repos-ends_example = valid_repos-ends (failing "a") 2 ("a" ∷ "b" ∷ []) 0 (omega arith)

one_is_removed : valid_repos (failing "a") 2 ("a" ∷ "b" ∷ []) 0 ≡ some (ok ("b" ∷ []), 2)
unfolding program
one_is_removed = refl

-- A repository that was not given
other_repo : valid_repos (failing "c") 2 ("a" ∷ "b" ∷ []) 0 ≡ some (raise value_error, 1)
unfolding program
other_repo = refl
