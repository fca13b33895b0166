-- ===== src/Stellar/Confirmation.antt =====
-- `SorobanConfirmationService` of src/stellar/soroban/confirmation.service.ts, and that its polling
-- loop returns at the first answer that decides.
use luminarail_backend.Base.{
  ℕ, zero, suc, ◌+◌, ◌≡◌, refl, Option, none, some, ◌==◌, if◌then◌else◌, or_else, ◌<◌, ◌-◌, arith,
}

-- What one call of `getTransaction` gives: a response with its ledger, or an exception with its
-- message.
pub data RpcAnswer : Type 0 where
  success failed thrown : ℕ → RpcAnswer
  not_found pending : RpcAnswer

pub data ChainStatus : Type 0 where
  success failed not_found pending : ChainStatus

-- `SettlementStatusResult`; the texts of errors are numbered, and the empty one is 0.
pub record StatusResult : Type 0 where
  pub status : ChainStatus
  pub ledger : Option ℕ
  pub error : Option ℕ

-- The text 'Transaction failed during on-chain execution.'
abbrev pub failed_on_chain_text : ℕ
failed_on_chain_text = 5

unfoldable pub get_transaction_status : RpcAnswer → StatusResult
get_transaction_status (RpcAnswer.success n) = record {
  status = ChainStatus.success;
  ledger = some n;
  error = none;
}
get_transaction_status (RpcAnswer.failed n) = record {
  status = ChainStatus.failed;
  ledger = some n;
  error = some failed_on_chain_text;
}
get_transaction_status RpcAnswer.not_found = record {
  status = ChainStatus.not_found;
  ledger = none;
  error = none;
}
get_transaction_status RpcAnswer.pending = record {
  status = ChainStatus.pending;
  ledger = none;
  error = none;
}
get_transaction_status (RpcAnswer.thrown message) = record {
  status = ChainStatus.failed;
  ledger = none;
  error = some message;
}

-- `SettlementConfirmationResult`, less the text of its error: confirmed, refused by an answer, or out
-- of attempts.
pub data Confirmation : Type 0 where
  confirmed : Option ℕ → Confirmation
  refused timed_out : Confirmation

-- Whether an answer ends the loop, and how.
unfoldable pub decision : StatusResult → Option Confirmation
decision r = elim r.status [
  | ChainStatus.success ↦ some (confirmed r.ledger)
  | ChainStatus.failed ↦ some refused
  | ChainStatus.not_found ↦ none
  | ChainStatus.pending ↦ none
]

-- The attempts from the one numbered `attempt` on, `left` of them; `answers` is what the RPC gives at
-- each attempt.
unfoldable pub poll : (ℕ → RpcAnswer) → ℕ → ℕ → Confirmation
poll answers attempt zero = timed_out
poll answers attempt (suc left) =
    or_else (decision (get_transaction_status (answers attempt))) (poll answers (suc attempt) left)

-- `options.maxAttempts || 10`
abbrev pub max_attempts : Option ℕ → ℕ
max_attempts none = 10
max_attempts (some n) = if n == 0 then 10 else n

unfoldable pub confirm_transaction : (ℕ → RpcAnswer) → Option ℕ → Confirmation
unfolding poll
confirm_transaction answers attempts = poll answers 1 (max_attempts attempts)

-- The attempt leaves the loop waiting.
abbrev pub Undecided : RpcAnswer → Type 0
Undecided a = decision (get_transaction_status a) ≡ none

-- The attempts `from + 0`, …, `from + (k - 1)` leave the loop waiting.
abbrev pub Waits : (ℕ → RpcAnswer) → ℕ → ℕ → Type 0
Waits answers from zero = Unit
Waits answers from (suc k) = Undecided (answers from) × Waits answers (suc from) k

poll_decided :
    (answers : ℕ → RpcAnswer) (from k left : ℕ) (c : Confirmation)
    → Waits answers from k
    → decision (get_transaction_status (answers (from + k))) ≡ some c
    → poll answers from (k + suc left) ≡ c
unfolding poll
poll_decided answers from zero left c none_yet hit =
    let here : from + 0 ≡ from = omega arith in
    let some_left : 0 + suc left ≡ suc left = omega arith in
    rw some_left (rw (poll, rw here at hit) refl)
poll_decided answers from (suc k) left c none_yet hit =
    let next : suc from + k ≡ from + suc k = omega arith in
    let some_left : suc k + suc left ≡ suc (k + suc left) = omega arith in
    rw some_left
      (rw (poll, none_yet.0) (poll_decided answers (suc from) k left c none_yet.1 (rw next hit)))

poll_waiting :
    (answers : ℕ → RpcAnswer) (from k : ℕ) → Waits answers from k → poll answers from k ≡ timed_out
unfolding poll
poll_waiting answers from zero none_yet = refl
poll_waiting answers from (suc k) none_yet =
    rw (poll, none_yet.0) (poll_waiting answers (suc from) k none_yet.1)

-- Where the first `k` attempts find the transaction neither executed nor failed, and the next one is
-- still allowed and decides, its decision is the result, whatever a later attempt would give.
pub confirm_first :
    (answers : ℕ → RpcAnswer) (attempts : Option ℕ) (k : ℕ) (c : Confirmation)
    → k < max_attempts attempts
    → Waits answers 1 k
    → decision (get_transaction_status (answers (1 + k))) ≡ some c
    → confirm_transaction answers attempts ≡ c
unfolding confirm_transaction
confirm_first answers attempts k c allowed none_yet hit =
    let n = max_attempts attempts in
    let split : n ≡ k + suc (n - suc k) = omega arith in
    rw split (poll_decided answers 1 k (n - suc k) c none_yet hit)

-- Where every allowed attempt finds the transaction neither executed nor failed, the loop ends, and
-- says that it has timed out.
pub confirm_timeout :
    (answers : ℕ → RpcAnswer) (attempts : Option ℕ)
    → Waits answers 1 (max_attempts attempts)
    → confirm_transaction answers attempts ≡ timed_out
unfolding confirm_transaction
confirm_timeout answers attempts none_yet = poll_waiting answers 1 (max_attempts attempts) none_yet

-- An exception of the RPC client at an allowed attempt that is reached ends the loop at once, with the
-- same result as a transaction that failed on the chain: the attempts that are left are not made.
pub exception_ends_polling :
    (answers : ℕ → RpcAnswer) (attempts : Option ℕ) (k message : ℕ)
    → k < max_attempts attempts
    → Waits answers 1 k
    → answers (1 + k) ≡ RpcAnswer.thrown message
    → confirm_transaction answers attempts ≡ refused
unfolding decision get_transaction_status
exception_ends_polling answers attempts k message allowed none_yet e =
    confirm_first answers attempts k refused allowed none_yet (rw e refl)
