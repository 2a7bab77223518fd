-- ===== src/Transactions/Once.antt =====
-- The loop of the yum transaction where a run either gives messages or processes the transaction
-- (convert2rhel/pkgmanager/handlers/yum/__init__.py).
use convert2rhel.Prelude.{
  ℕ, zero, suc, ◌+◌, ◌≤◌, Bool, Option, none, some, Result, ok, raise, arith,
}
use convert2rhel.Prelude.Calls.{Call, ◌>>=◌}
use convert2rhel.Prelude.Costs.{
  Costs, computed-Costs, more-Costs, bind-Costs, if-Costs, finally-Costs,
}
use convert2rhel.Transactions.Rounds.{
  Messages, Rounds, messages_in, is_resolvable, after_run, round, attempts_loop, run_transaction,
}
use convert2rhel.Transactions.Retries.{at_most, attempts_loop-at_most}

-- What a run may add to a count that ends so: nothing where it gives messages
abbrev pub may_add : Option Messages → ℕ
may_add none = 1
may_add (some messages) = 0

abbrev pub cost_of : Result (Option Messages) → ℕ
cost_of (ok m) = may_add (messages_in m)
cost_of (raise e) = 1

pub record Once {S : Type 0} (count : S → ℕ) (run : Call S (Option Messages)) : Type 0 where
  pub bound : (s : S) → count (run s).1 ≤ count s + cost_of (run s).0

module _ {S : Type 0} {count : S → ℕ} where
  pub bind-Once :
      {A : Type 0} {c : Call S A} {next : A → Call S (Option Messages)}
      → Costs count 0 c
      → ((a : A) → Once count (next a))
      → Once count (c >>= next)
  bind-Once {A} {c} {next} h k = record { bound = λ s. go s (c s) (h.bound s) }
    where
      go :
          (s : S) (end : Result A × S)
          → count end.1 ≤ count s + 0
          → count (((λ _. end) >>= next) s).1 ≤ count s + cost_of (((λ _. end) >>= next) s).0
      go s (ok a, s1) h1 = omega (arith, h1, (k a).bound s1)
      go s (raise e, s1) h1 = omega (arith, h1)

module _ {S : Type 0} (rounds : Rounds S) (validate : Bool) (count : S → ℕ) where
  pub record RunsOnce : Type 0 where
    pub set_up : Costs count 0 rounds.set_up
    pub close : Costs count 0 rounds.close
    pub run : Once count rounds.run
    pub resolve_problems : (m : Messages) → Costs count 0 (rounds.resolve_problems m)

  module _ (h : RunsOnce) where
    after_run-bound :
        (next : Call S Bool) (o : Option Messages) (n : ℕ) (s : S)
        → Costs count 1 next
        → count s ≤ n + may_add o
        → count (after_run rounds validate next o s).1 ≤ n + 1
    after_run-bound next none n s k b = b
    after_run-bound next (some m) n s k b =
        let resolved : Costs count 1 (after_run rounds validate next (some m)) =
          bind-Costs {m = 0} {n = 1}
            (if-Costs (is_resolvable validate m) (h.resolve_problems m) computed-Costs) (λ u. k) in
        omega (arith, b, resolved.bound s)

    behind_run-Costs :
        (next : Call S Bool)
        → Costs count 1 next
        → Costs count 1 (rounds.run >>= λ m. after_run rounds validate next (messages_in m))
    behind_run-Costs next k = record { bound = λ s. go s (rounds.run s) (h.run.bound s) }
      where
        go :
            (s : S) (end : Result (Option Messages) × S)
            → count end.1 ≤ count s + cost_of end.0
            → count (((λ _. end) >>= λ m. after_run rounds validate next (messages_in m)) s).1
              ≤ count s + 1
        go s (ok m, s1) b = after_run-bound next (messages_in m) (count s) s1 k b
        go s (raise e, s1) b = b

    at_most-Once : (n : ℕ) → Costs count 1 (at_most rounds validate n)
    unfolding at_most round
    at_most-Once zero = more-Costs {m = 0} {n = 1} (omega arith) computed-Costs
    at_most-Once (suc n) =
        bind-Costs {m = 0} {n = 1} h.set_up
          (λ u. behind_run-Costs (at_most rounds validate n) (at_most-Once n))

    -- Where a run adds one to a count at most, and nothing where it gives messages, the whole
    -- transaction adds one at most, however it ends.
    pub run_transaction-Once : (s : S) → count (run_transaction rounds validate s).1 ≤ count s + 1
    unfolding run_transaction
    run_transaction-Once s =
        let loop : Costs count 1 (attempts_loop rounds validate 5 0) =
          rw (attempts_loop-at_most rounds validate 0) (at_most-Once 4) in
        (more-Costs {m = 1 + 0 + 0} {n = 1} (omega arith) (
            finally-Costs (bind-Costs loop (λ b. if-Costs b computed-Costs computed-Costs))
              h.close)).bound
          s
