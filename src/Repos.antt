-- ===== src/Repos.antt =====
-- Calls of yum (convert2rhel/pkgmanager/__init__.py, call_yum_cmd) and the repositories of a
-- conversion (convert2rhel/repo.py). The process that runs yum, the search in its output and the
-- repositories of the system are parameters.
pub mod Laws
mod Tests
use convert2rhel.Prelude.{
  ℕ, zero, suc, String, ◌<>◌, Bool, true, false, not, ◌&&◌, Option, none, some, List, [], ◌∷◌, ◌++◌,
  map, length, leb, given, has_items, ◌==◌, nat_eq, string_eq, Exn, Result, ok, raise, value_error,
  other, if◌then◌else◌,
}

pub record YumCall : Type 0 where
  pub command : String
  pub args : List String
  pub enable_repos : Option (List String)
  pub disable_repos : Option (List String)
  pub set_releasever : Bool
  pub custom_releasever : Option String
  pub setopts : List String

-- What `call_yum_cmd` and the functions of repo.py take from `tool_opts` and `system_info`, and
-- what they call.
pub record Yum (W : Type 0) : Type 0 where
  pub disablerepo : List String
  pub enablerepo : List String
  pub no_rhsm : Bool
  pub is_dnf : Bool
  pub releasever : Option String
  pub major : ℕ
  -- `str(major)`
  pub str : ℕ → String
  pub enabled_rhel_repos : List String
  -- `run_subprocess`: the output and the return code
  pub run_subprocess : List String → W → (String × ℕ) × W
  -- `stdout.endswith("Error: Nothing to do\n")`
  pub has_nothing_to_do : String → Bool
  -- The repository in the line that `re.search` finds, in `_get_valid_custom_repos`
  pub problematic_repo : String → Option String

-- What a call of `_get_valid_custom_repos` comes to: its result, or a call for fewer repositories.
pub data Check : Type 0 where
  finished : Result (List String) → Check
  again : List String → Check

abbrev pub text_or_empty : Option String → String
text_or_empty none = ""
text_or_empty (some s) = s

-- A list that is given takes the place of the default.
abbrev pub given_or : Option (List String) → List String → List String
given_or none default = default
given_or (some repos) default = repos

module _ {W : Type 0} (yum : Yum W) where
  unfoldable pub releasever_args : YumCall → Result (List String)
  releasever_args c =
      if not c.set_releasever
      then ok []
      else if given c.custom_releasever
      then ok (("--releasever=" <> text_or_empty c.custom_releasever) ∷ [])
      else if given yum.releasever
      then ok (("--releasever=" <> text_or_empty yum.releasever) ∷ [])
      else raise (other "AssertionError")

  abbrev pub platform_args : List String
  platform_args =
      if leb 8 yum.major
      then ("--setopt=module_platform_id=platform:el" <> yum.str yum.major) ∷ []
      else []

  -- The options of the repositories: those to disable come before those to enable.
  unfoldable pub yum_command : YumCall → List String → List String
  yum_command c releasever =
      ("yum" ∷ c.command ∷ "--setopt=exclude=" ∷ "-y" ∷ [])
      ++ (map (λ repo. "--disablerepo=" <> repo) (given_or c.disable_repos yum.disablerepo)
          ++ (releasever
              ++ (platform_args
                  ++ (map (λ repo. "--enablerepo=" <> repo)
                        (given_or c.enable_repos yum.enabled_rhel_repos)
                      ++ (map (λ opt. "--setopt=" <> opt) c.setopts ++ c.args)))))

  -- `call_yum_cmd`
  unfoldable pub call_yum_cmd : YumCall → W → Result (String × ℕ) × W
  call_yum_cmd c w = elim (releasever_args c) [
    | raise e ↦ (raise e, w)
    | ok releasever ↦
        let ((stdout, code), w') = yum.run_subprocess (yum_command c releasever) w in
        (ok (stdout, (if code == 1 && yum.has_nothing_to_do stdout then 0 else code)), w')
  ]

  -- The call that asks whether the repositories can be reached
  abbrev pub makecache : List String → YumCall
  makecache repos = record {
    command = "makecache";
    args = "-v" ∷ "--setopt=*.skip_if_unavailable=False" ∷ [];
    enable_repos = some [];
    disable_repos = some repos;
    set_releasever = true;
    custom_releasever = none;
    setopts = [];
  }

  -- `repos.remove(repo)`: the first one, or a ValueError.
  unfoldable pub remove_repo : String → List String → Result (List String)
  remove_repo repo [] = raise value_error
  remove_repo repo (r ∷ repos) =
      let rest = remove_repo repo repos in
      if r == repo then ok repos else elim rest [ ok rs ↦ ok (r ∷ rs) | raise e ↦ raise e ]

  -- The repository that a failed call of yum names.
  abbrev pub repo_to_remove : String × ℕ → Option String
  repo_to_remove (output, code) = if code == 0 then none else yum.problematic_repo output

  abbrev pub as_check : Result (List String) → Check
  as_check (ok rest) = again rest
  as_check (raise e) = finished (raise e)

  -- The repository is removed, or the function is done.
  abbrev pub without_repo : List String → Option String → Check
  without_repo repos none = finished (ok repos)
  without_repo repos (some repo) = as_check (remove_repo repo repos)

  abbrev pub after_call : List String → Result (String × ℕ) → Check
  after_call repos (raise e) = finished (raise e)
  after_call repos (ok answer) = without_repo repos (repo_to_remove answer)

  -- One call of `_get_valid_custom_repos`, on repositories
  unfoldable pub check_once : List String → W → Check × W
  check_once repos w = let (r, w') = call_yum_cmd (makecache repos) w in (after_call repos r, w')

  -- `_get_valid_custom_repos` on a bound of its calls; `none` where the bound is met.
  unfoldable pub valid_repos : ℕ → List String → W → Option (Result (List String) × W)
  valid_repos bound [] w = some (ok [], w)
  valid_repos zero (r ∷ repos) w = none
  valid_repos (suc bound) (r ∷ repos) w =
      let (check, w') = check_once (r ∷ repos) w in
      elim check [ finished x ↦ some (x, w') | again rest ↦ valid_repos bound rest w' ]

  -- `_set_rhel_repos_to_disable`, with `_set_custom_repos`
  unfoldable pub rhel_repos_to_disable : W → Option (Result (List String) × W)
  rhel_repos_to_disable w =
      if not (yum.no_rhsm && has_items yum.enablerepo)
      then some (ok ("rhel*" ∷ []), w)
      else if yum.is_dnf
      then some (ok ("rhel*" ∷ yum.enablerepo), w)
      else elim (valid_repos (length yum.enablerepo) yum.enablerepo w) [
        | none ↦ none
        | some (r, w') ↦ some ((elim r [ ok repos ↦ ok ("rhel*" ∷ repos) | raise e ↦ raise e ]), w')
      ]

-- `get_rhel_disable_repos_command`
unfoldable pub get_rhel_disable_repos_command : List String → List String
get_rhel_disable_repos_command repos = map (λ repo. "--disablerepo=" <> repo) repos

-- `get_rhel_repoids`
unfoldable pub get_rhel_repoids :
    (eus_system els_system : Bool) → (eus els default : List String) → List String
get_rhel_repoids eus_system els_system eus els default =
    if eus_system then eus else if els_system then els else default
