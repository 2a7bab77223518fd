-- ===== src/Transactions/Rounds.antt =====
-- The loop of `YumTransactionHandler.run_transaction`
-- (convert2rhel/pkgmanager/handlers/yum/__init__.py).
use convert2rhel.Prelude.{
  ℕ, zero, suc, String, Bool, true, false, not, ◌&&◌, Option, none, some, List, [], ◌∷◌, ◌==◌,
  has_items, contains, leb, string_eq, critical_error, other, if◌then◌else◌,
}
use convert2rhel.Prelude.Text.{has_text}
use convert2rhel.Prelude.Calls.{Call, ◌>>=◌, ◌>>◌, pure, throw, finally, do_nothing}

-- What `resolveDeps` gives as messages: a list of texts, or one text.
pub data Messages : Type 0 where
  listed : List String → Messages
  single : String → Messages

-- Whether there are some
abbrev pub has_messages : Messages → Bool
has_messages (listed messages) = has_items messages
has_messages (single message) = not (message == "")

-- `needle in messages`
abbrev pub is_among : String → Messages → Bool
is_among needle (listed messages) = contains messages needle
is_among needle (single message) = has_text needle message

unfoldable pub characters : String → List String
characters String.[] = []
characters (String.◌∷◌ c s) = String.◌∷◌ c "" ∷ characters s

-- What iterating over them yields: of one text, its characters
abbrev pub items_of : Messages → List String
items_of (listed messages) = messages
items_of (single message) = characters message

-- What a round calls, over the sessions `S`
pub record Rounds (S : Type 0) : Type 0 where
  -- `_set_up_base` and `_close_yum_base`
  pub set_up : Call S (Unit {0})
  pub close : Call S (Unit {0})
  -- `_run_transaction_subprocess`: the messages, or None
  pub run : Call S (Option Messages)
  -- `_resolve_yum_problematic_dependencies`
  pub resolve_problems : Messages → Call S (Unit {0})

abbrev pub max_num_of_attempts_to_resolve_deps : ℕ
max_num_of_attempts_to_resolve_deps = 3

-- The messages, where there are some
abbrev pub messages_in : Option Messages → Option Messages
messages_in none = none
messages_in (some messages) = if has_messages messages then some messages else none

abbrev pub is_resolvable : Bool → Messages → Bool
is_resolvable validate messages =
    not (is_among "Depsolving loop limit reached" messages) && validate

module _ {S : Type 0} (rounds : Rounds S) (validate : Bool) where
  abbrev pub resolve_if_told : Messages → Call S (Unit {0})
  resolve_if_told messages =
      if is_resolvable validate messages then rounds.resolve_problems messages else do_nothing

  abbrev pub after_run : Call S Bool → Option Messages → Call S Bool
  after_run next none = pure true
  after_run next (some messages) = resolve_if_told messages >> next

  -- One round, and what follows where there are messages
  unfoldable pub round : Call S Bool → Call S Bool
  round next = do rounds.set_up; messages ← rounds.run; after_run next (messages_in messages)

  -- The while loop, on a bound of its rounds: whether the dependencies are resolved
  unfoldable pub attempts_loop : ℕ → ℕ → Call S Bool
  attempts_loop zero attempts = throw (other "out of fuel")
  attempts_loop (suc n) attempts =
      let rest = attempts_loop n (suc attempts) in
      if leb attempts max_num_of_attempts_to_resolve_deps then round rest else pure false

  abbrev pub raise_unless : Bool → Call S (Unit {0})
  raise_unless resolve_deps_finished =
      if resolve_deps_finished then do_nothing else throw critical_error

  -- `run_transaction`
  unfoldable pub run_transaction : Call S (Unit {0})
  run_transaction =
      finally (attempts_loop (suc (suc max_num_of_attempts_to_resolve_deps)) 0 >>= raise_unless)
        rounds.close
