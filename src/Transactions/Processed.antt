-- ===== src/Transactions/Processed.antt =====
-- How often yum processes a transaction (convert2rhel/pkgmanager/handlers/yum/__init__.py): the loop
-- of Rounds with the handler of Yum.
use convert2rhel.Prelude.{
  ℕ, ◌+◌, ◌≤◌, ◌≡◌, refl, Result, ok, raise, String, Bool, Option, none, some, List, [], ◌∷◌,
  nat_eq, Exn, critical_error, arith,
}
use convert2rhel.Prelude.Calls.{Call, ◌>>◌, pure}
use convert2rhel.Prelude.Costs.{Costs, computed-Costs, bind-Costs, if-Costs, catch-Costs}
use convert2rhel.Transactions.Session.{
  Session, outside, on_base, method_of, sent, as_child, set_base,
}
use convert2rhel.Transactions.Rounds.{Messages, items_of, messages_in}
use convert2rhel.Transactions.Yum.{
  BaseMethod, YumApi, Replacing, in_place_of, problematic_packages, remove_problematic,
  resolve_problematic_dependencies, close_yum_base, set_up_base, enable_each, enable_repos, swap,
  swap_each, pass_downgrade_error, or_downgrade, replace_pkg, replace_each, perform_operations,
  resolve_dependencies, process_transaction, process_unless, in_child, yum_rounds,
  run_yum_transaction,
}
use convert2rhel.Transactions.Once.{Once, cost_of, bind-Once, run_transaction-Once}

-- A method of yum adds at most `n` to the count.
pub record Adds {B W A : Type 0} (count : W → ℕ) (n : ℕ) (m : BaseMethod B W A) : Type 0 where
  pub bound : (b : B) (w : W) → count (m b w).2 ≤ count w + n

sent-cost : (r : Result (Option Messages)) → cost_of (sent r) ≡ cost_of r
sent-cost (ok m) = refl
sent-cost (raise e) = ground arith

module _ {B W : Type 0} (count : W → ℕ) where
  abbrev counted : Session B W → ℕ
  counted s = count s.world

  outside-Costs :
      {A : Type 0} {n : ℕ} {c : Call W A} → Costs count n c → Costs counted n (outside c)
  outside-Costs h = record { bound = λ s. h.bound s.world }

  on_base-Costs :
      {A : Type 0} {n : ℕ} {m : BaseMethod B W A} → Adds count n m → Costs counted n (on_base m)
  on_base-Costs {A} {n} {m} h = record { bound = λ s. go s.base s.world }
    where
      go : (o : Option B) (w : W) → count ((method_of m o w).1).world ≤ count w + n
      go none w = omega arith
      go (some b) w = h.bound b w

  as_child-Once :
      {interrupt : W → Option W} {c : Call (Session B W) (Option Messages)}
      → ((w w' : W) → interrupt w ≡ some w' → count w' ≤ count w + 1)
      → Once counted c
      → Once counted (as_child interrupt c)
  unfolding as_child
  as_child-Once {interrupt} {c} h k = record { bound = λ s. go s (interrupt s.world) refl }
    where
      go :
          (s : Session B W) (o : Option W)
          → interrupt s.world ≡ o
          → counted (as_child (λ w. o) c s).1 ≤ counted s + cost_of (as_child (λ w. o) c s).0
      go s none e = omega (arith, k.bound s, sent-cost (c s).0)
      go s (some w) e = h s.world w e

  set_base-Costs : {o : Option B} → Costs counted 0 (set_base o)
  set_base-Costs = record { bound = λ s. omega arith }

  module _ (yum : YumApi B W) (sys : Replacing W) where
    -- `processTransaction` adds one to the count, and no other call adds to it.
    pub record IsProcessCount : Type 0 where
      pub setup_locale : Costs count 0 yum.setup_locale
      pub new_base : Costs count 0 yum.new_base
      pub disable_all_repos : Adds count 0 yum.disable_all_repos
      pub set_progress_bar : Adds count 0 yum.set_progress_bar
      pub enable_repo : (repo : String) → Adds count 0 (yum.enable_repo repo)
      pub update : (pkg : String) → Adds count 0 (yum.update pkg)
      pub reinstall : (pkg : String) → Adds count 0 (yum.reinstall pkg)
      pub downgrade : (pkg : String) → Adds count 0 (yum.downgrade pkg)
      pub remove : (pkg : String) → Adds count 0 (yum.remove pkg)
      pub install : (pkg : String) → Adds count 0 (yum.install pkg)
      pub resolve_deps : Adds count 0 yum.resolve_deps
      pub processes : Adds count 1 yum.process_transaction
      pub close : Adds count 0 yum.close
      pub original_os_pkgs : Costs count 0 sys.original_os_pkgs
      pub is_rpm_installed : (pkg : String) → Costs count 0 (sys.is_rpm_installed pkg)
      pub push_package : (pkgs : List String) → Costs count 0 (sys.push_package pkgs)
      pub remove_pkgs : (pkgs : List String) → Costs count 0 (sys.remove_pkgs pkgs)
      -- A child that is terminated has processed once at most.
      pub interrupts : (w w' : W) → sys.interrupt w ≡ some w' → count w' ≤ count w + 1

    module _ (h : IsProcessCount) where
      in_place-Costs :
          (test : Exn → Bool) (instead e : Exn)
          → Costs counted 0 (in_place_of {S = Session B W} {A = Unit {0}} test instead e)
      in_place-Costs test instead e = if-Costs (test e) computed-Costs computed-Costs

      remove_problematic-Costs :
          (pkgs : List String) → Costs count 0 (remove_problematic yum sys pkgs)
      unfolding remove_problematic
      remove_problematic-Costs [] = computed-Costs
      remove_problematic-Costs (p ∷ ps) = bind-Costs (h.push_package _) (λ u. h.remove_pkgs _)

      resolve-Costs :
          (output : Messages) → Costs counted 0 (resolve_problematic_dependencies yum sys output)
      unfolding resolve_problematic_dependencies
      resolve-Costs output =
          outside-Costs (remove_problematic-Costs (problematic_packages yum sys (items_of output)))

      close-Costs : Costs counted 0 (close_yum_base yum sys)
      unfolding close_yum_base
      close-Costs = bind-Costs (on_base-Costs h.close) (λ u. set_base-Costs)

      set_up_base-Costs : Costs counted 0 (set_up_base yum sys)
      unfolding set_up_base
      set_up_base-Costs =
          bind-Costs (outside-Costs h.setup_locale)
            (λ u. bind-Costs (outside-Costs h.new_base) (λ base. set_base-Costs))

      enable_each-Costs : (repos : List String) → Costs counted 0 (enable_each yum sys repos)
      unfolding enable_each
      enable_each-Costs [] = computed-Costs
      enable_each-Costs (repo ∷ repos) =
          bind-Costs (on_base-Costs (h.enable_repo repo)) (λ u. enable_each-Costs repos)

      enable_repos-Costs : Costs counted 0 (enable_repos yum sys)
      unfolding enable_repos
      enable_repos-Costs = bind-Costs (on_base-Costs h.disable_all_repos) (λ u.
          bind-Costs (on_base-Costs h.set_progress_bar) (λ u.
            catch-Costs (enable_each-Costs sys.enabled_rhel_repos)
              (in_place-Costs yum.is_repo_error critical_error)))

      swap-Costs :
          (pair : String × String) (installed : Bool)
          → Costs counted 0 (swap yum sys pair installed)
      swap-Costs (old, new) installed =
          if-Costs installed
            (bind-Costs (on_base-Costs (h.remove old)) (λ u. on_base-Costs (h.install new)))
            computed-Costs

      swap_each-Costs : (pairs : List (String × String)) → Costs counted 0 (swap_each yum sys pairs)
      unfolding swap_each
      swap_each-Costs [] = computed-Costs
      swap_each-Costs (pair ∷ pairs) =
          bind-Costs (outside-Costs (h.is_rpm_installed (pair.0)))
            (λ installed. bind-Costs (swap-Costs pair installed) (λ u. swap_each-Costs pairs))

      pass_downgrade-Costs : (e : Exn) → Costs counted 0 (pass_downgrade_error yum sys e)
      pass_downgrade-Costs e = if-Costs (yum.is_downgrade_error e) computed-Costs computed-Costs

      or_downgrade-Costs : (pkg : String) (e : Exn) → Costs counted 0 (or_downgrade yum sys pkg e)
      or_downgrade-Costs pkg e =
          if-Costs (yum.is_reinstall_error e)
            (catch-Costs (on_base-Costs (h.downgrade pkg)) pass_downgrade-Costs) computed-Costs

      replace_pkg-Costs : (pkg : String) → Costs counted 0 (replace_pkg yum sys pkg)
      unfolding replace_pkg
      replace_pkg-Costs pkg = bind-Costs (on_base-Costs (h.update pkg)) (λ can_update.
          if-Costs can_update computed-Costs
            (catch-Costs (on_base-Costs (h.reinstall pkg)) (or_downgrade-Costs pkg)))

      replace_each-Costs : (pkgs : List String) → Costs counted 0 (replace_each yum sys pkgs)
      unfolding replace_each
      replace_each-Costs [] = computed-Costs
      replace_each-Costs (pkg ∷ pkgs) =
          bind-Costs (replace_pkg-Costs pkg) (λ u. replace_each-Costs pkgs)

      perform_operations-Costs : Costs counted 0 (perform_operations yum sys)
      unfolding perform_operations
      perform_operations-Costs = bind-Costs (outside-Costs h.original_os_pkgs) (λ pkgs.
          bind-Costs enable_repos-Costs (λ u.
            catch-Costs (bind-Costs (replace_each-Costs pkgs) (λ u. swap_each-Costs sys.swap_pkgs))
              (in_place-Costs yum.is_no_more_mirrors critical_error)))

      resolve_dependencies-Costs : Costs counted 0 (resolve_dependencies yum sys)
      unfolding resolve_dependencies
      resolve_dependencies-Costs =
          bind-Costs (on_base-Costs h.resolve_deps) (λ answer. computed-Costs)

      process_transaction-Costs :
          (validate : Bool) → Costs counted 1 (process_transaction yum sys validate)
      unfolding process_transaction
      process_transaction-Costs validate =
          bind-Costs
            (if-Costs validate (on_base-Costs {n = 0} (record { bound = λ b w. omega arith }))
              computed-Costs)
            (λ u.
              catch-Costs (on_base-Costs h.processes)
                (in_place-Costs yum.is_yum_base_error critical_error))

      last-Once :
          (validate : Bool) (m o : Option Messages)
          → messages_in m ≡ o
          → Once counted (process_unless yum sys validate o >> pure m)
      last-Once validate m none e = record {
        bound = λ s.
            go s (process_transaction yum sys validate s)
              ((process_transaction-Costs validate).bound s);
      }
        where
          go :
              (s : Session B W) (end : Result (Unit {0}) × Session B W)
              → counted end.1 ≤ counted s + 1
              → counted (((λ _. end) >> pure m) s).1
                ≤ counted s + cost_of (((λ _. end) >> pure m) s).0
          go s (ok u, s1) b = rw e b
          go s (raise x, s1) b = b
      last-Once validate m (some messages) e = record { bound = λ s. omega arith }

      in_child-Once : (validate : Bool) → Once counted (in_child yum sys validate)
      unfolding in_child
      in_child-Once validate = bind-Once perform_operations-Costs (λ u.
          bind-Once resolve_dependencies-Costs
            (λ messages. last-Once validate messages (messages_in messages) refl))

      -- Where each call of `processTransaction` is counted, a yum transaction makes one at most,
      -- whatever yum and the system return and however it ends, where a child process that is
      -- terminated has made one at most.
      pub run_yum_transaction-processed :
          (validate : Bool) (s : Session B W)
          → count ((run_yum_transaction yum sys validate s).1).world ≤ count s.world + 1
      unfolding run_yum_transaction
      run_yum_transaction-processed validate s =
          run_transaction-Once (yum_rounds yum sys validate) validate counted
            (record {
              set_up = set_up_base-Costs;
              close = close-Costs;
              run = as_child-Once h.interrupts (in_child-Once validate);
              resolve_problems = resolve-Costs;
            })
            s
