-- ===== src/Transactions/Tests.antt =====
-- Runs of the transactions on worlds that are counts (convert2rhel/pkgmanager/handlers).
use convert2rhel.Prelude.{
  ℕ, suc, ◌≤◌, String, Bool, true, false, none, some, List, [], ◌∷◌, has_items, contains, ltb,
  string_eq, nat_eq, ok, raise, keyboard_interrupt, other, if◌then◌else◌, ◌≡◌, refl, arith,
}
use convert2rhel.Prelude.Text.{starts_with, has_text}
use convert2rhel.Prelude.Calls.{pure}
use convert2rhel.Transactions.Session.{Session, as_child}
use convert2rhel.Transactions.Rounds.{
  listed, single, characters, is_among, items_of, Rounds, round, attempts_loop, run_transaction,
}
use convert2rhel.Transactions.Yum.{
  BaseMethod, YumApi, Replacing, without_spaces, problematic_packages, remove_problematic,
  resolve_problematic_dependencies, close_yum_base, set_up_base, enable_each, enable_repos,
  swap_each, replace_pkg, replace_each, perform_operations, resolve_dependencies,
  process_transaction, in_child, run_yum_transaction,
}
use convert2rhel.Transactions.Dnf.{DnfApi, run_dnf_transaction}
use convert2rhel.Transactions.Dnf
use convert2rhel.Transactions.Retries.{IsCounted, run_transaction-Costs}
use convert2rhel.Transactions.Ends.{Completed, run_transaction-Completed}
use convert2rhel.Transactions.Processed.{IsProcessCount, run_yum_transaction-processed}
use convert2rhel.Transactions.Done.{Closed, run_dnf_transaction-Closed}
use convert2rhel.Transactions.Unavailable.{replace_each-passes_over}

program : Unit {0}
unfolding has_text characters starts_with round attempts_loop run_transaction as_child
    without_spaces problematic_packages remove_problematic resolve_problematic_dependencies
    close_yum_base set_up_base enable_each enable_repos swap_each replace_pkg replace_each
    perform_operations resolve_dependencies process_transaction in_child run_yum_transaction
    string_eq nat_eq
program = tt

-- One text is searched for the limit, and is iterated over by its characters.
one_text :
    (is_among "limit" (single "loop limit reached") ≡ true)
    × (items_of (single "no") ≡ "n" ∷ "o" ∷ [])
unfolding program
one_text = (refl, refl)

-- The first run names a package that is in the way.
abbrev one_problem : Rounds ℕ
one_problem = record {
  set_up = pure tt;
  close = pure tt;
  run = λ s. (ok (if ltb s 1 then some (listed ("kernel requires glibc" ∷ [])) else none), suc s);
  resolve_problems = λ messages. pure tt;
}

one_problem-IsCounted : IsCounted one_problem true (λ s. s)
one_problem-IsCounted = record {
  set_up = record { bound = λ s. omega arith };
  close = record { bound = λ s. omega arith };
  run = record { bound = λ s. omega arith };
  resolve_problems = λ messages. record { bound = λ s. omega arith };
}

run_transaction-Costs_test : (run_transaction one_problem true 0).1 ≤ 4
run_transaction-Costs_test = run_transaction-Costs one_problem true (λ s. s) one_problem-IsCounted 0

run_one_problem : run_transaction one_problem true 0 ≡ (ok tt, 2)
unfolding program
run_one_problem = refl

run_transaction-Completed_example : Completed one_problem true 2
run_transaction-Completed_example = run_transaction-Completed one_problem true 0 2 run_one_problem

abbrev quiet : BaseMethod ℕ ℕ (Unit {0})
quiet b w = (ok tt, b, w)

-- Processing the transaction is interrupted; no package can be reinstalled or downgraded.
abbrev yum : YumApi ℕ ℕ
yum = record {
  setup_locale = pure tt;
  new_base = pure 0;
  configure = λ b. b;
  append_test = λ b. suc b;
  disable_all_repos = quiet;
  set_progress_bar = quiet;
  enable_repo = λ repo. quiet;
  update = λ pkg b w. (ok false, b, w);
  reinstall = λ pkg b w. (raise (other "ReinstallInstallError"), b, w);
  downgrade = λ pkg b w. (raise (other "DowngradeError"), b, w);
  remove = λ pkg. quiet;
  install = λ pkg. quiet;
  resolve_deps = λ b w. (ok (2, listed []), b, w);
  process_transaction = λ b w. (raise keyboard_interrupt, b, suc w);
  close = quiet;
  is_repo_error = λ e. false;
  is_reinstall_error = λ e. true;
  is_downgrade_error = λ e. true;
  is_no_more_mirrors = λ e. false;
  is_yum_base_error = λ e. false;
  packages_in = λ message. [];
}

abbrev system : Replacing ℕ
system = record {
  original_os_pkgs = pure ("bash.x86_64" ∷ []);
  enabled_rhel_repos = "rhel-8" ∷ [];
  swap_pkgs = [];
  is_rpm_installed = λ pkg. pure false;
  push_package = λ pkgs. pure tt;
  remove_pkgs = λ pkgs. pure tt;
  interrupt = λ w. none;
  list_of_set = λ names. names;
}

abbrev session : Session ℕ ℕ
session = record { base = some 0; world = 0 }

-- A KeyboardInterrupt that only the child gets is sent by neither the queue nor the pipe.
interrupted :
    run_yum_transaction yum system false (record { base = none; world = 0 })
    ≡ (ok tt, record { base = none; world = 1 })
unfolding program
interrupted = refl

-- One that reaches the parent is raised again, behind the closing of the object of yum.
terminated :
    run_yum_transaction yum
      (record system { interrupt = λ w. some w })
      false
      (record { base = none; world = 0 })
    ≡ (raise keyboard_interrupt, record { base = none; world = 0 })
unfolding program
terminated = refl

replace_each-passes_over_test :
    replace_each yum system ("bash.x86_64" ∷ "sed.x86_64" ∷ []) session
    ≡ replace_each yum system ("sed.x86_64" ∷ []) session
replace_each-passes_over_test =
    replace_each-passes_over yum system "bash.x86_64" ("sed.x86_64" ∷ [])
      (other "ReinstallInstallError") (other "DowngradeError") session session session session refl
      refl refl refl refl

abbrev dnf : DnfApi ℕ ℕ
dnf = record {
  new_base = pure 0;
  configure = λ b. b;
  append_test = λ b. suc b;
  read_all_repos = quiet;
  all_repos = λ b w. (ok ("rhel-8" ∷ "epel" ∷ []), b, w);
  enable_repo = λ repo. quiet;
  disable_repo = λ repo. quiet;
  fill_sack = quiet;
  find_upgrades = quiet;
  has_upgrade = λ name arch b w. (ok false, b, w);
  upgrade = λ pkg. quiet;
  reinstall = λ pkg. quiet;
  downgrade_to = λ pkg. quiet;
  install = λ pkg. quiet;
  remove = λ pkg. quiet;
  resolve = quiet;
  download_packages = quiet;
  do_transaction = λ b w. (ok tt, b, suc w);
  close = quiet;
  is_repo_error = λ e. false;
  is_not_available = λ e. true;
  is_not_installed = λ e. true;
  is_depsolve_error = λ e. false;
  is_download_error = λ e. false;
  is_dnf_error = λ e. false;
}

run_dnf :
    run_dnf_transaction dnf system false (record { base = none; world = 0 })
    ≡ (ok tt, record { base = none; world = 1 })
unfolding program Dnf.set_up_base Dnf.choose_each Dnf.enable_repos Dnf.swap_each Dnf.replace_pkg
    Dnf.replace_each Dnf.perform_operations Dnf.resolve_dependencies Dnf.process_transaction
    run_dnf_transaction convert2rhel.Prelude.Text.split_last
run_dnf = refl

run_dnf_transaction-Closed_example : Closed dnf system false (record { base = none; world = 1 })
run_dnf_transaction-Closed_example =
    run_dnf_transaction-Closed dnf system false (record { base = none; world = 0 })
      (record { base = none; world = 1 }) run_dnf

yum-IsProcessCount : IsProcessCount (λ w. w) yum system
yum-IsProcessCount = record {
  setup_locale = record { bound = λ w. omega arith };
  new_base = record { bound = λ w. omega arith };
  disable_all_repos = record { bound = λ b w. omega arith };
  set_progress_bar = record { bound = λ b w. omega arith };
  enable_repo = λ repo. record { bound = λ b w. omega arith };
  update = λ pkg. record { bound = λ b w. omega arith };
  reinstall = λ pkg. record { bound = λ b w. omega arith };
  downgrade = λ pkg. record { bound = λ b w. omega arith };
  remove = λ pkg. record { bound = λ b w. omega arith };
  install = λ pkg. record { bound = λ b w. omega arith };
  resolve_deps = record { bound = λ b w. omega arith };
  processes = record { bound = λ b w. omega arith };
  close = record { bound = λ b w. omega arith };
  original_os_pkgs = record { bound = λ w. omega arith };
  is_rpm_installed = λ pkg. record { bound = λ w. omega arith };
  push_package = λ pkgs. record { bound = λ w. omega arith };
  remove_pkgs = λ pkgs. record { bound = λ w. omega arith };
  interrupts = λ w w' e. absurd (ground (arith, e));
}

run_yum_transaction-processed_example : ((run_yum_transaction yum system false session).1).world ≤ 1
run_yum_transaction-processed_example =
    run_yum_transaction-processed (λ w. w) yum system yum-IsProcessCount false session
