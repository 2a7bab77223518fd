-- ===== src/Transactions/Ends.antt =====
-- What a yum transaction has done where it returns
-- (convert2rhel/pkgmanager/handlers/yum/__init__.py).
use convert2rhel.Prelude.{
  ℕ, zero, suc, Bool, true, false, Option, none, some, Result, ok, raise, ◌≡◌, refl,
}
use convert2rhel.Prelude.Calls.{Call, ◌>>=◌, finally}
use convert2rhel.Prelude.Costs.{Leaves, At, bind-Leaves, any-Leaves, At-ok}
use convert2rhel.Transactions.Rounds.{
  Messages, Rounds, messages_in, resolve_if_told, after_run, round, attempts_loop, raise_unless,
  run_transaction,
}
use convert2rhel.Transactions.Retries.{at_most, attempts_loop-at_most}

module _ {S : Type 0} (rounds : Rounds S) (validate : Bool) where
  -- The operations were run and gave no messages.
  pub record Ran (s : S) : Type 0 where
    pub before : S
    pub messages : Option Messages
    pub ran : rounds.run before ≡ (ok messages, s)
    pub silent : messages_in messages ≡ none

  abbrev IsResolved : Bool → S → Type 0
  IsResolved true s = Ran s
  IsResolved false s = Unit

  -- What `run` leaves: the run itself
  record IsRun (messages : Option Messages) (s : S) : Type 0 where
    before : S
    ran : rounds.run before ≡ (ok messages, s)

  run-IsRun : Leaves IsRun rounds.run
  run-IsRun = record { post = λ s. go s (rounds.run s) refl }
    where
      go : (s : S) (end : Result (Option Messages) × S) → rounds.run s ≡ end → At IsRun end
      go s (ok m, s') e = record { before = s; ran = e }
      go s (raise x, s') e = tt

  after_run-IsResolved :
      (next : Call S Bool) (m : Option Messages) (o : Option Messages) (s : S)
      → Leaves IsResolved next
      → IsRun m s
      → messages_in m ≡ o
      → At IsResolved (after_run rounds validate next o s)
  after_run-IsResolved next m none s k r e = record {
    before = r.before;
    messages = m;
    ran = r.ran;
    silent = e;
  }
  after_run-IsResolved next m (some messages) s k r e =
      (bind-Leaves (λ u. next) (any-Leaves (resolve_if_told rounds validate messages))
          (λ u s u'. k.post s)).post
        s

  round-IsResolved :
      (next : Call S Bool) → Leaves IsResolved next → Leaves IsResolved (round rounds validate next)
  unfolding round
  round-IsResolved next k =
      bind-Leaves (λ u. rounds.run >>= λ m. after_run rounds validate next (messages_in m))
        (any-Leaves rounds.set_up)
        (λ u s u'.
          (bind-Leaves (λ m. after_run rounds validate next (messages_in m)) run-IsRun
              (λ m s r. after_run-IsResolved next m (messages_in m) s k r refl)).post
            s)

  at_most-IsResolved : (n : ℕ) → Leaves IsResolved (at_most rounds validate n)
  unfolding at_most
  at_most-IsResolved zero = record { post = λ s. tt }
  at_most-IsResolved (suc n) = round-IsResolved (at_most rounds validate n) (at_most-IsResolved n)

  raise_unless-Ran :
      (b : Bool) (s : S) → IsResolved b s → At (λ u. Ran) (raise_unless rounds validate b s)
  raise_unless-Ran true s r = r
  raise_unless-Ran false s r = tt

  body-Ran : Leaves (λ u. Ran) (attempts_loop rounds validate 5 0 >>= raise_unless rounds validate)
  body-Ran =
      rw (attempts_loop-at_most rounds validate 0)
        (bind-Leaves (raise_unless rounds validate) (at_most-IsResolved 4) raise_unless-Ran)

  pub record Completed (s' : S) : Type 0 where
    pub resolved : S
    pub ran : Ran resolved
    pub closed : rounds.close resolved ≡ (ok tt, s')

  finally-Completed :
      (s : S) (first last : Result (Unit {0}) × S)
      → At (λ u. Ran) first
      → rounds.close first.1 ≡ last
      → At (λ u. Completed) (finally (λ s. first) (λ s. last) s)
  finally-Completed s (ok u, s1) (ok v, s2) r e = record { resolved = s1; ran = r; closed = e }
  finally-Completed s (ok u, s1) (raise x, s2) r e = tt
  finally-Completed s (raise x, s1) (ok v, s2) r e = tt
  finally-Completed s (raise x, s1) (raise y, s2) r e = tt

  -- Where a yum transaction returns, the last run of its operations gave no messages, and closing
  -- the object of yum behind it has returned.
  pub run_transaction-Completed :
      (s s' : S) → run_transaction rounds validate s ≡ (ok tt, s') → Completed s'
  unfolding run_transaction
  run_transaction-Completed s s' e =
      let body : Call S (Unit {0}) =
        attempts_loop rounds validate 5 0 >>= raise_unless rounds validate in
      At-ok (λ u. Completed) tt s' (run_transaction rounds validate s)
        (finally-Completed s (body s) (rounds.close (body s).1) (body-Ran.post s) refl) e
