-- ===== src/Transactions/Unavailable.antt =====
-- Packages that the repositories of RHEL have not got
-- (convert2rhel/pkgmanager/handlers/yum/__init__.py and handlers/dnf/__init__.py).
use convert2rhel.Prelude.{
  String, Bool, true, false, some, List, ◌∷◌, Exn, ok, raise, if◌then◌else◌, ◌≡◌, ap, ◌∙◌,
}
use convert2rhel.Prelude.Text.{split_last}
use convert2rhel.Prelude.Calls.{
  Call, ◌>>=◌, computed, throw, catch, do_nothing, bind-ok, catch-raise,
}
use convert2rhel.Transactions.Session.{Session, on_base}
use convert2rhel.Transactions.Yum.{YumApi, Replacing}
use convert2rhel.Transactions.Yum
use convert2rhel.Transactions.Dnf.{DnfApi, name_and_arch}
use convert2rhel.Transactions.Dnf

-- The choice by a test that is true
chosen :
    {S A : Type 0} {b : Bool} (c d : Call S A) (s : S) → b ≡ true → (if b then c else d) s ≡ c s
chosen c d s e = ap (λ b. (if b then c else d) s) e

module _ {B W : Type 0} (yum : YumApi B W) (sys : Replacing W) where
  -- A package that yum can neither update nor reinstall nor downgrade is passed over: the packages
  -- behind it are replaced next, in the world that the three calls leave.
  pub replace_each-passes_over :
      (pkg : String) (pkgs : List String) (e e' : Exn) (s s1 s2 s3 : Session B W)
      → on_base (yum.update pkg) s ≡ (ok false, s1)
      → on_base (yum.reinstall pkg) s1 ≡ (raise e, s2)
      → yum.is_reinstall_error e ≡ true
      → on_base (yum.downgrade pkg) s2 ≡ (raise e', s3)
      → yum.is_downgrade_error e' ≡ true
      → Yum.replace_each yum sys (pkg ∷ pkgs) s ≡ Yum.replace_each yum sys pkgs s3
  unfolding Yum.replace_each Yum.replace_pkg
  replace_each-passes_over pkg pkgs e e' s s1 s2 s3 h1 h2 t h3 t' =
      let downgraded : Call (Session B W) (Unit {0}) =
        catch (on_base (yum.downgrade pkg)) (Yum.pass_downgrade_error yum sys) in
      bind-ok (Yum.replace_pkg yum sys pkg) (λ u. Yum.replace_each yum sys pkgs)
        (bind-ok (on_base (yum.update pkg)) (Yum.or_reinstall yum sys pkg) h1
          ∙ catch-raise (on_base (yum.reinstall pkg)) (Yum.or_downgrade yum sys pkg) h2
          ∙ chosen downgraded (throw e) s2 t
          ∙ catch-raise (on_base (yum.downgrade pkg)) (Yum.pass_downgrade_error yum sys) h3
          ∙ chosen do_nothing (throw e') s3 t')

module _ {B W : Type 0} (dnf : DnfApi B W) (sys : Replacing W) where
  -- The same of dnf, where no upgrade is found for the name and the arch in front of the last dot
  -- and behind it.
  pub replace_each-passes_over_dnf :
      (pkg name arch : String) (pkgs : List String) (e e' : Exn) (s s1 s2 s3 : Session B W)
      → split_last "." pkg ≡ some (name, arch)
      → on_base (dnf.has_upgrade name arch) s ≡ (ok false, s1)
      → on_base (dnf.reinstall pkg) s1 ≡ (raise e, s2)
      → dnf.is_not_available e ≡ true
      → on_base (dnf.downgrade_to pkg) s2 ≡ (raise e', s3)
      → dnf.is_not_installed e' ≡ true
      → Dnf.replace_each dnf sys (pkg ∷ pkgs) s ≡ Dnf.replace_each dnf sys pkgs s3
  unfolding Dnf.replace_each Dnf.replace_pkg
  replace_each-passes_over_dnf pkg name arch pkgs e e' s s1 s2 s3 parts h1 h2 t h3 t' =
      let downgraded : Call (Session B W) (Unit {0}) =
        catch (on_base (dnf.downgrade_to pkg)) (Dnf.pass_not_installed dnf sys) in
      let with_parts : String × String → Call (Session B W) (Unit {0}) =
        λ p. on_base (dnf.has_upgrade (p.0) (p.1)) >>= Dnf.upgrade_or_reinstall dnf sys pkg in
      bind-ok (Dnf.replace_pkg dnf sys pkg) (λ u. Dnf.replace_each dnf sys pkgs)
        (bind-ok (computed (name_and_arch (split_last "." pkg))) with_parts
            (ap (λ o. (name_and_arch o, s)) parts)
          ∙ bind-ok (on_base (dnf.has_upgrade name arch)) (Dnf.upgrade_or_reinstall dnf sys pkg) h1
          ∙ catch-raise (on_base (dnf.reinstall pkg)) (Dnf.or_downgrade dnf sys pkg) h2
          ∙ chosen downgraded (throw e) s2 t
          ∙ catch-raise (on_base (dnf.downgrade_to pkg)) (Dnf.pass_not_installed dnf sys) h3
          ∙ chosen do_nothing (throw e') s3 t')
