-- ===== src/Workers/Settle/Flow.antt =====
-- `processSingleOrder` and `executeSettlementFlow` of workers/settlement.worker.ts, and
-- `LiveSettlementExecutor` of src/stellar/live-settlement.executor.ts.
use luminarail_backend.Base.{
  ℕ, Bool, true, false, not, ◌&&◌, Option, none, some, or_else, includes, [], ◌∷◌, ◌==◌, ◌===◌,
  if◌then◌else◌,
}
use luminarail_backend.Int.{ℤ}
use luminarail_backend.Store.Status.{SettlementStatus, settlement_status_enum}
use luminarail_backend.Store.Rows.{World, Settlement, Actor}
use luminarail_backend.Store.Config.{Config}
use luminarail_backend.Store.Action.{
  Action, pure, raise_if, lock_lost, lock_unavailable, ◌>>=◌, ◌>>◌,
}
use luminarail_backend.Store.Table.{find_settlement}
use luminarail_backend.Lock.Guard.{LockAnswer, take_lock, finally_release}
use luminarail_backend.Settlement.Service.{create_settlement_for_order}
use luminarail_backend.Settlement.Marks.{
  mark_submitting, mark_submitted, mark_confirming, mark_completed, mark_failed,
  mark_requires_reconciliation,
}
use luminarail_backend.Stellar.Confirmation.{RpcAnswer, Confirmation, confirm_transaction}

-- How the build, the signature and the submission of the transaction end: with the hash that the RPC
-- returns, or with an exception, whose text contains 'simulation', 'config' or 'Invalid' or not.
pub data Submission : Type 0 where
  submitted : ℕ → Submission
  refused : Bool → Submission

-- What the executor of a settlement does with the outside world.
pub record Executor : Type 0 where
  pub submit_settlement : Settlement → Submission
  pub confirm_settlement : ℕ → Confirmation

-- `answers` is what the RPC gives for each hash at each attempt; the executor asks for the default
-- number of attempts.
unfoldable pub live_executor : (Settlement → Submission) → (ℕ → ℕ → RpcAnswer) → Executor
unfolding confirm_transaction
live_executor send answers = record {
  submit_settlement = send;
  confirm_settlement = λ hash. confirm_transaction (answers hash) none;
}

-- The reasons that the worker writes, numbered.
abbrev pub submission_error : ℕ
submission_error = 11

abbrev pub confirmation_error : ℕ
confirmation_error = 12

-- Whether the flow ends with a status or goes on with the settlement's current row.
pub data Step : Type 0 where
  ends : SettlementStatus → Step
  continues : Settlement → Step

unfoldable pub record_submission : ℕ → Settlement → Submission → Action Step
unfolding mark_submitted mark_failed mark_requires_reconciliation
record_submission now current (Submission.submitted hash) = do
  updated ← mark_submitted now current.id hash
  pure (continues updated)
record_submission now current (Submission.refused true) = do
  failed ← mark_failed current.id submission_error
  pure (ends failed.status)
record_submission now current (Submission.refused false) = do
  recon ← mark_requires_reconciliation current.id submission_error
  pure (ends recon.status)

-- 1. Nothing is submitted for a settlement that has a hash. `owned` says whether the worker still owns
-- the settlement's lock.
unfoldable pub submit_once : Executor → ℕ → Bool → Settlement → Option ℕ → Action Step
unfolding record_submission
submit_once executor now owned current (some hash) = pure (continues current)
submit_once executor now owned current none = do
  raise_if (not owned) lock_lost
  record_submission now current (executor.submit_settlement current)

-- 2. SUBMITTED becomes CONFIRMING.
unfoldable pub begin_confirming : Settlement → Action Settlement
unfolding mark_confirming
begin_confirming current =
    if current.status === SettlementStatus.submitted
    then mark_confirming current.id
    else pure current

unfoldable pub record_confirmation :
    Config → ℕ → Settlement → Confirmation → Action SettlementStatus
unfolding mark_completed mark_requires_reconciliation
record_confirmation cfg now current (Confirmation.confirmed (some ledger)) = do
  completed ← mark_completed cfg now current.id ledger
  pure completed.status
record_confirmation cfg now current (Confirmation.confirmed none) = do
  recon ← mark_requires_reconciliation current.id confirmation_error
  pure recon.status
record_confirmation cfg now current Confirmation.refused = do
  recon ← mark_requires_reconciliation current.id confirmation_error
  pure recon.status
record_confirmation cfg now current Confirmation.timed_out = do
  recon ← mark_requires_reconciliation current.id confirmation_error
  pure recon.status

-- 3. The result of polling decides about a settlement that is CONFIRMING and has a hash.
unfoldable pub confirm_hash :
    Executor → Config → ℕ → Settlement → Option ℕ → Action SettlementStatus
unfolding record_confirmation
confirm_hash executor cfg now current none = pure current.status
confirm_hash executor cfg now current (some hash) =
    if current.status === SettlementStatus.confirming
    then record_confirmation cfg now current (executor.confirm_settlement hash)
    else pure current.status

unfoldable pub after_submission : Executor → Config → ℕ → Step → Action SettlementStatus
unfolding begin_confirming confirm_hash
after_submission executor cfg now (ends status) = pure status
after_submission executor cfg now (continues settlement) = do
  current ← begin_confirming settlement
  confirm_hash executor cfg now current current.stellar_transaction_hash

unfoldable pub run_fresh :
    Executor → Config → ℕ → Bool → Settlement → Option Settlement → Action SettlementStatus
unfolding submit_once after_submission
run_fresh executor cfg now owned settlement none = pure settlement.status
run_fresh executor cfg now owned settlement (some fresh) =
    submit_once executor now owned fresh fresh.stellar_transaction_hash
    >>= after_submission executor cfg now

unfoldable pub execute_settlement_flow :
    Executor → Config → ℕ → Bool → Settlement → Action SettlementStatus
unfolding run_fresh
execute_settlement_flow executor cfg now owned settlement =
    find_settlement (λ s. s.id == settlement.id) >>= run_fresh executor cfg now owned settlement

pub record Processed : Type 0 where
  pub order_id : ℕ
  pub settlement_id : ℕ
  pub status : SettlementStatus
  pub is_new : Bool

-- What the worker does with the settlement as it reads it under the lock; `between` is what other
-- processes commit while it is claimed.
unfoldable pub advance_settlement :
    Executor → Config → ℕ → (World → World) → Bool → Bool → Settlement → Action SettlementStatus
unfolding mark_submitting execute_settlement_flow
advance_settlement executor cfg now between owned stop_at_submitting current =
    if current.status === SettlementStatus.pending
    then mark_submitting between current.id >>= (λ submitting.
      if stop_at_submitting
      then pure submitting.status
      else execute_settlement_flow executor cfg now owned submitting)
    else if not stop_at_submitting
        && includes
            (SettlementStatus.submitting ∷ SettlementStatus.submitted ∷ SettlementStatus.confirming
              ∷ [])
            current.status
    then execute_settlement_flow executor cfg now owned current
    else pure current.status

-- The `try` block, which reads the settlement again.
unfoldable pub under_lock :
    Executor → Config → ℕ → (World → World) → Bool → Bool → Settlement → Action SettlementStatus
unfolding advance_settlement
under_lock executor cfg now between owned stop_at_submitting settlement = do
  current ← find_settlement (λ s. s.id == settlement.id)
  advance_settlement executor cfg now between owned stop_at_submitting (or_else current settlement)

-- Without the lock, the status is only read, and not even that where locks are required.
unfoldable pub without_lock : Config → Settlement → Action SettlementStatus
without_lock cfg settlement = do
  raise_if cfg.locks_required lock_unavailable
  current ← find_settlement (λ s. s.id == settlement.id)
  pure (or_else current settlement).status

-- `lock` is the answer that ends the three seconds of asking for the settlement's lock, and `owned`
-- says whether the worker still owns it when it submits.
unfoldable pub process_single_order :
    Executor
    → Config
    → ℕ
    → (ℤ → ℤ)
    → (World → World)
    → LockAnswer
    → Bool
    → Bool
    → ℕ
    → Action Processed
unfolding create_settlement_for_order take_lock finally_release under_lock without_lock
process_single_order executor cfg now round4 between lock owned stop_at_submitting order_id = do
  created ← create_settlement_for_order cfg now round4 between order_id (some Actor.system)
  got ← take_lock cfg lock
  status ←
      if got
      then finally_release lock
          (under_lock executor cfg now between owned stop_at_submitting created.settlement)
      else without_lock cfg created.settlement
  pure (record {
    order_id = order_id;
    settlement_id = created.settlement.settlement_id;
    status = status;
    is_new = not created.is_duplicate;
  })
