-- ===== src/Subscription/Needed.antt =====
-- The packages of subscription-manager and how they are installed (convert2rhel/subscription.py).
use convert2rhel.Prelude.{
  ℕ, String, ◌<>◌, Bool, ◌&&◌, ◌||◌, List, [], ◌∷◌, ◌++◌, leb, has_items, contains, ◌==◌, nat_eq,
  string_eq, Result, ok, raise, key_error, if◌then◌else◌,
}
use convert2rhel.Prelude.Calls.{Call, ◌>>=◌, computed, pure}
use convert2rhel.Subscription.Commands.{SubscriptionManager}

-- `_relevant_subscription_manager_pkgs`, with the major version of the system
abbrev pub of_version : ℕ → List String
of_version major =
    if major == 7
    then "subscription-manager-rhsm" ∷ "subscription-manager-rhsm-certificates"
      ∷ "python-syspurpose" ∷ []
    else if major == 8
    then "python3-subscription-manager-rhsm" ∷ "dnf-plugin-subscription-manager"
      ∷ "python3-syspurpose" ∷ "python3-cloud-what" ∷ "json-c.x86_64"
      ∷ "subscription-manager-rhsm-certificates" ∷ []
    else if leb 9 major
    then "libdnf-plugin-subscription-manager" ∷ "python3-subscription-manager-rhsm"
      ∷ "python3-cloud-what" ∷ "subscription-manager-rhsm-certificates" ∷ []
    else []

unfoldable pub relevant_subscription_manager_pkgs : ℕ → Bool → List String
relevant_subscription_manager_pkgs major json_c_i686 =
    ("subscription-manager" ∷ of_version major) ++ (if json_c_i686 then "json-c.i686" ∷ [] else [])

-- `items.add(item)`, of a set that is a list without duplicates
abbrev pub add_once : String → List String → List String
add_once item items = if contains items item then items else items ++ (item ∷ [])

-- What installing the packages calls
pub record Installing (W : Type 0) : Type 0 where
  pub id : String
  pub major : ℕ
  pub is_rpm_installed : String → Call W Bool
  pub backedup_reposdir : String
  -- `os.path.dirname`
  pub dirname : String → String
  pub download_repofile : String → Call W String
  pub write_temporary_repofile : String → Call W String
  -- A RestorablePackageSet of the packages and the options of yum, pushed on the controller
  pub push_package_set : List String → List String → Call W (Unit {0})

abbrev pub client_tools_rhel_8_5_repo : String
client_tools_rhel_8_5_repo =
    "[client-tools-for-rhel-8-rpms]\nname=Red Hat Client Tools for RHEL 8\nbaseurl=https://cdn-public.redhat.com/content/public/addon/dist/client-tools8/8.5/$basearch/os/\nenabled=1\ngpgcheck=1\ngpgkey=file:///etc/pki/rpm-gpg/RPM-GPG-KEY-redhat-release\n\n\n"

-- `_CLIENT_TOOLS_REPOFILE_MAPPING[major]`
abbrev pub client_tools_repofile : ℕ → Result String
client_tools_repofile major =
    let folder : String = "https://cdn-public.redhat.com/content/public/repofiles/" in
    if major == 2 || major == 7
    then ok (folder <> "client-tools-for-rhel-7-server.repo")
    else if major == 8
    then ok (folder <> "client-tools-for-rhel-8.repo")
    else if major == 9
    then ok (folder <> "client-tools-for-rhel-9.repo")
    else raise key_error

module _ {W : Type 0} (sys : SubscriptionManager W) where
  -- The loop of `needed_subscription_manager_pkgs`
  unfoldable pub missing_pkgs : List String → List String → Call W (List String)
  missing_pkgs [] found = pure found
  missing_pkgs (pkg ∷ pkgs) found = do
    installed ← sys.installed_pkgs pkg
    missing_pkgs pkgs (if has_items installed then found else add_once pkg found)

  -- `needed_subscription_manager_pkgs`, with the order that `list` gives a set
  unfoldable pub needed_subscription_manager_pkgs :
      Installing W → (List String → List String) → Call W (List String)
  needed_subscription_manager_pkgs env list_of_set = do
    json_c ← env.is_rpm_installed "json-c.i686"
    missing ← missing_pkgs (relevant_subscription_manager_pkgs env.major json_c) []
    pure (list_of_set missing)

module _ {W : Type 0} (env : Installing W) where
  -- CentOS Linux 8 has a repository of its own.
  unfoldable pub client_tools_repofile_path : Call W String
  client_tools_repofile_path =
      if env.id == "centos" && (env.major == 8)
      then env.write_temporary_repofile client_tools_rhel_8_5_repo
      else (do
        url ← computed (client_tools_repofile env.major)
        contents ← env.download_repofile url
        env.write_temporary_repofile contents)

  unfoldable pub setopts_of : String → List String
  setopts_of path =
      (if env.id == "oracle" && (env.major == 7) then "exclude=rhn-client-tools" ∷ [] else [])
      ++ (("reposdir=" <> (env.dirname path <> ("," <> env.backedup_reposdir))) ∷ [])

  -- `install_rhel_subscription_manager`
  unfoldable pub install_rhel_subscription_manager : List String → Call W (Unit {0})
  install_rhel_subscription_manager pkgs = do
    path ← client_tools_repofile_path
    env.push_package_set pkgs (setopts_of path)
