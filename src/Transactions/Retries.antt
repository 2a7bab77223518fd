-- ===== src/Transactions/Retries.antt =====
-- How often a yum transaction is run (convert2rhel/pkgmanager/handlers/yum/__init__.py).
use convert2rhel.Prelude.{ℕ, zero, suc, ◌+◌, ◌≤◌, Bool, false, Option, none, some, ◌≡◌, refl, arith}
use convert2rhel.Prelude.Calls.{Call, pure}
use convert2rhel.Prelude.Costs.{
  Costs, computed-Costs, more-Costs, bind-Costs, if-Costs, finally-Costs,
}
use convert2rhel.Transactions.Rounds.{
  Messages, Rounds, messages_in, is_resolvable, after_run, round, attempts_loop, raise_unless,
  run_transaction,
}

module _ {S : Type 0} (rounds : Rounds S) (validate : Bool) where
  -- At most so many rounds, one behind the other
  unfoldable pub at_most : ℕ → Call S Bool
  at_most zero = pure false
  at_most (suc n) = round rounds validate (at_most n)

  -- On every bound of at least five rounds, the loop is four rounds one behind the other, each of
  -- which is left out where an earlier one had no messages.
  pub attempts_loop-at_most :
      (n : ℕ) → attempts_loop rounds validate (suc (suc (suc (suc (suc n))))) 0 ≡ at_most 4
  unfolding attempts_loop at_most
  attempts_loop-at_most n = refl

  module _ (count : S → ℕ) where
    pub record IsCounted : Type 0 where
      pub set_up : Costs count 0 rounds.set_up
      pub close : Costs count 0 rounds.close
      pub run : Costs count 1 rounds.run
      pub resolve_problems : (m : Messages) → Costs count 0 (rounds.resolve_problems m)

    module _ (h : IsCounted) where
      after_run-Costs :
          (n : ℕ) (next : Call S Bool) (m : Option Messages)
          → Costs count n next
          → Costs count n (after_run rounds validate next m)
      after_run-Costs n next none k = more-Costs {m = 0} {n = n} (omega arith) computed-Costs
      after_run-Costs n next (some m) k = more-Costs {m = 0 + n} {n = n} (omega arith) (
          bind-Costs (if-Costs (is_resolvable validate m) (h.resolve_problems m) computed-Costs)
            (λ u. k))

      round-Costs :
          (n : ℕ) (next : Call S Bool)
          → Costs count n next
          → Costs count (suc n) (round rounds validate next)
      unfolding round
      round-Costs n next k = more-Costs {m = 0 + (1 + n)} {n = suc n} (omega arith) (
          bind-Costs h.set_up
            (λ u. bind-Costs h.run (λ messages. after_run-Costs n next (messages_in messages) k)))

      at_most-Costs : (n : ℕ) → Costs count n (at_most n)
      unfolding at_most
      at_most-Costs zero = computed-Costs
      at_most-Costs (suc n) = round-Costs n (at_most n) (at_most-Costs n)

      loop-Costs : Costs count 4 (attempts_loop rounds validate 5 0)
      loop-Costs = rw (attempts_loop-at_most 0) (at_most-Costs 4)

      raise_unless-Costs : (b : Bool) → Costs count 0 (raise_unless rounds validate b)
      raise_unless-Costs b = if-Costs b computed-Costs computed-Costs

      -- The operations of a yum transaction are run four times at most, however it ends.
      pub run_transaction-Costs :
          (s : S) → count (run_transaction rounds validate s).1 ≤ count s + 4
      unfolding run_transaction
      run_transaction-Costs s =
          (more-Costs {m = 4 + 0 + 0} {n = 4} (omega arith)
              (finally-Costs (bind-Costs loop-Costs raise_unless-Costs) h.close)).bound
            s
