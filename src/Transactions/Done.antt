-- ===== src/Transactions/Done.antt =====
-- What a dnf transaction has done where it returns
-- (convert2rhel/pkgmanager/handlers/dnf/__init__.py).
use convert2rhel.Prelude.{
  Bool, true, false, none, Exn, Result, ok, raise, critical_error, if◌then◌else◌, ◌≡◌, refl,
}
use convert2rhel.Prelude.Calls.{Call, ◌>>◌, throw, catch, do_nothing}
use convert2rhel.Prelude.Costs.{Leaves, At, bind-Leaves, any-Leaves, At-ok}
use convert2rhel.Transactions.Session.{Session, on_base, change_base, set_base}
use convert2rhel.Transactions.Yum.{Replacing, in_place_of}
use convert2rhel.Transactions.Dnf.{
  DnfApi, set_up_base, enable_repos, perform_operations, resolve_dependencies, process_transaction,
  run_dnf_transaction,
}

module _ {B W : Type 0} (dnf : DnfApi B W) (sys : Replacing W) (validate : Bool) where
  abbrev Do : Type 0
  Do = Call (Session B W) (Unit {0})

  -- The transaction of dnf was done.
  pub record Done (s : Session B W) : Type 0 where
    pub before : Session B W
    pub did : on_base dnf.do_transaction before ≡ (ok tt, s)

  -- The object of dnf was closed behind it, and deleted.
  pub record Closed (s' : Session B W) : Type 0 where
    pub done : Session B W
    pub closed : Session B W
    pub transaction : Done done
    pub closing : on_base dnf.close done ≡ (ok tt, closed)
    pub deleted : s' ≡ record closed { base = none }

  raised-At :
      (b : Bool) (e : Exn) (s : Session B W) (P : Unit {0} → Session B W → Type 0)
      → At P ((if b then throw critical_error else throw e) s)
  raised-At true e s P = tt
  raised-At false e s P = tt

  caught-Done :
      (s : Session B W) (end : Result (Unit {0}) × Session B W)
      → on_base dnf.do_transaction s ≡ end
      → At (λ u. Done) (catch (λ _. end) (in_place_of dnf.is_dnf_error critical_error) s)
  caught-Done s (ok u, s') e = record { before = s; did = e }
  caught-Done s (raise x, s') e = raised-At (dnf.is_dnf_error x) x s' (λ u. Done)

  abbrev do_transaction : Do
  do_transaction = catch (on_base dnf.do_transaction) (in_place_of dnf.is_dnf_error critical_error)

  process_transaction-Done : Leaves (λ u. Done) (process_transaction dnf sys validate)
  unfolding process_transaction
  process_transaction-Done =
      bind-Leaves (λ u. do_transaction)
        (any-Leaves (if validate then change_base dnf.append_test else do_nothing))
        (λ u s u'. caught-Done s (on_base dnf.do_transaction s) refl)

  abbrev close : Do
  close = on_base dnf.close >> set_base none

  close-Closed :
      (s : Session B W) (end : Result (Unit {0}) × Session B W)
      → Done s
      → on_base dnf.close s ≡ end
      → At (λ u. Closed) (((λ _. end) >> set_base none) s)
  close-Closed s (ok u, s1) d e = record {
    done = s;
    closed = s1;
    transaction = d;
    closing = e;
    deleted = refl;
  }
  close-Closed s (raise x, s1) d e = tt

  -- A call in front does not matter.
  behind : (first rest : Do) → Leaves (λ u. Closed) rest → Leaves (λ u. Closed) (first >> rest)
  behind first rest h = bind-Leaves (λ u. rest) (any-Leaves first) (λ u s u'. h.post s)

  run-Closed : Leaves (λ u. Closed) (run_dnf_transaction dnf sys validate)
  unfolding run_dnf_transaction
  run-Closed = behind (set_up_base dnf sys) _ (
      behind (enable_repos dnf sys) _ (
        behind (perform_operations dnf sys) _ (
          behind (resolve_dependencies dnf sys) _ (
            bind-Leaves (λ u. close) process_transaction-Done
              (λ u s d. close-Closed s (on_base dnf.close s) d refl)))))

  -- Where a dnf transaction returns, dnf has done the transaction, and behind that the object of
  -- dnf was closed and deleted, with nothing in between.
  pub run_dnf_transaction-Closed :
      (s s' : Session B W) → run_dnf_transaction dnf sys validate s ≡ (ok tt, s') → Closed s'
  run_dnf_transaction-Closed s s' e =
      At-ok (λ u. Closed) tt s' (run_dnf_transaction dnf sys validate s) (run-Closed.post s) e
