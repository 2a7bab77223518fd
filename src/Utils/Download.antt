-- ===== src/Utils/Download.antt =====
-- The command that downloads a package: download_pkg of convert2rhel/utils/__init__.py.
use convert2rhel.Prelude.{
  ℕ, String, ◌<>◌, Bool, not, Option, none, some, List, [], ◌∷◌, ◌++◌, map, leb, given, ◌==◌,
  nat_eq, Result, ok, raise, other, if◌then◌else◌,
}

-- What the code takes from its arguments and from `system_info`; a list of repositories may be None.
pub record Request : Type 0 where
  pub pkg : String
  pub dest : String
  pub reposdir : Option String
  pub enable_repos : Option (List String)
  pub disable_repos : Option (List String)
  pub set_releasever : Bool
  pub custom_releasever : Option String
  pub releasever : Option String
  pub major : ℕ

pub record Downloads (W : Type 0) : Type 0 where
  -- `str(major)`
  pub str : ℕ → String
  -- `run_cmd_in_pty`: the output and the return code
  pub run_cmd_in_pty : List String → W → (String × ℕ) × W
  -- `get_rpm_path_from_yumdownloader_output`
  pub rpm_path : List String → String → String → W → Option String × W
  -- `report_on_a_download_error`, which may end the program
  pub report_on_a_download_error : String → String → W → Result (Unit {0}) × W

abbrev pub options_of : String → Option (List String) → List String
options_of option none = []
options_of option (some repos) = map (λ repo. option <> repo) repos

abbrev pub or_nothing : Option String → String
or_nothing none = ""
or_nothing (some s) = s

-- `--releasever`, of the custom one or that of the system
unfoldable pub releasever_options : Request → Result (List String)
releasever_options r =
    if not r.set_releasever
    then ok []
    else if given r.custom_releasever
    then ok (("--releasever=" <> or_nothing r.custom_releasever) ∷ [])
    else if given r.releasever
    then ok (("--releasever=" <> or_nothing r.releasever) ∷ [])
    else raise (other "AssertionError")

module _ {W : Type 0} (env : Downloads W) where
  abbrev pub platform_options : ℕ → List String
  platform_options major =
      if leb 8 major then ("--setopt=module_platform_id=platform:el" <> env.str major) ∷ [] else []

  unfoldable pub download_command : Request → List String → List String
  download_command r releasever =
      ("yumdownloader" ∷ "-v" ∷ "--setopt=exclude=" ∷ ("--destdir=" <> r.dest) ∷ [])
      ++ ((if given r.reposdir then ("--setopt=reposdir=" <> or_nothing r.reposdir) ∷ [] else [])
          ++ (options_of "--disablerepo=" r.disable_repos
              ++ (options_of "--enablerepo=" r.enable_repos
                  ++ (releasever ++ (platform_options r.major ++ (r.pkg ∷ []))))))

  -- A failure is reported, and None is returned.
  unfoldable pub fail_download : String → String → W → Result (Option String) × W
  fail_download output pkg w =
      let (e, w') = env.report_on_a_download_error output pkg w in
      elim e [ ok _ ↦ (ok none, w') | raise x ↦ (raise x, w') ]

  unfoldable pub run_download : Request → List String → W → Result (Option String) × W
  run_download r cmd w =
      let ((output, code), w1) = env.run_cmd_in_pty cmd w in
      if not (code == 0)
      then fail_download output r.pkg w1
      else (let (path, w2) = env.rpm_path cmd output r.dest w1 in
          if given path then (ok path, w2) else fail_download output r.pkg w2)

  -- `download_pkg`
  unfoldable pub download_pkg : Request → W → Result (Option String) × W
  download_pkg r w = elim (releasever_options r) [
    | raise e ↦ (raise e, w)
    | ok releasever ↦ run_download r (download_command r releasever) w
  ]

  -- `download_pkgs`
  unfoldable pub download_pkgs : Request → List String → W → Result (List (Option String)) × W
  download_pkgs r [] w = (ok [], w)
  download_pkgs r (pkg ∷ pkgs) w =
      let (path, w1) = download_pkg (record r { pkg = pkg }) w in
      elim path [
        | raise e ↦ (raise e, w1)
        | ok p ↦
            let (paths, w2) = download_pkgs r pkgs w1 in
            (elim paths [ raise e ↦ raise e | ok ps ↦ ok (p ∷ ps) ], w2)
      ]
