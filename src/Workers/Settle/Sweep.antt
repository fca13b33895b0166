-- ===== src/Workers/Settle/Sweep.antt =====
-- `processPendingOrders` of workers/settlement.worker.ts.
use luminarail_backend.Base.{
  ℕ, Bool, true, false, not, ◌&&◌, ◌||◌, Option, none, some, List, [], ◌∷◌, select, take, any,
  is_some, ◌==◌, ◌===◌, if◌then◌else◌,
}
use luminarail_backend.Int.{ℤ}
use luminarail_backend.Store.Status.{
  OrderStatus, order_status_enum, SettlementStatus, settlement_status_enum,
}
use luminarail_backend.Store.Rows.{World, Order, Settlement, Actor, AuditAction}
use luminarail_backend.Store.Config.{Config}
use luminarail_backend.Store.Action.{Action, pure, gets, recover, audit_log, ◌>>=◌, ◌>>◌}
use luminarail_backend.Store.Table.{find_settlement}
use luminarail_backend.Lock.Guard.{LockAnswer, locked_sweep}
use luminarail_backend.Settlement.Marks.{mark_failed}
use luminarail_backend.Workers.Reconcile.Sweep.{or_default}
use luminarail_backend.Workers.Settle.Flow.{Executor, Processed, process_single_order}

-- `SettlementStateMachineCanTransition`, the worker's own.
abbrev pub can_transition : SettlementStatus → SettlementStatus → Bool
can_transition from to =
    if from === to
    then true
    else if from === SettlementStatus.pending || from === SettlementStatus.submitting
    then to === SettlementStatus.failed
    else false

abbrev pub worker_error : ℕ
worker_error = 13

-- What follows an exception: the settlement fails, if the worker's rule lets it. What this throws ends
-- the sweep.
unfoldable pub fail_existing : Option Settlement → Action (Option Processed)
unfolding mark_failed
fail_existing none = pure none
fail_existing (some existing) =
    if can_transition existing.status SettlementStatus.failed
    then mark_failed existing.id worker_error >> pure none
    else pure none

abbrev pub push : Option Processed → List Processed → List Processed
push none rs = rs
push (some r) rs = r ∷ rs

-- What the outside decides about one order: how its lock is answered for, whether it is kept, and what
-- other processes commit meanwhile.
pub record Turn : Type 0 where
  pub lock : LockAnswer
  pub owned : Bool
  pub between : World → World

unfoldable pub process_each :
    Executor → Config → ℕ → (ℤ → ℤ) → (ℕ → Turn) → Bool → List Order → Action (List Processed)
unfolding process_single_order fail_existing
process_each executor cfg now round4 turn stop_at_submitting [] = pure []
process_each executor cfg now round4 turn stop_at_submitting (o ∷ os) = do
  result ←
      recover
        (process_single_order executor cfg now round4 (turn o.id).between (turn o.id).lock
            (turn o.id).owned stop_at_submitting o.id
          >>= λ r. pure (some r))
        (find_settlement (λ s. s.order_id == o.id) >>= fail_existing)
  results ← process_each executor cfg now round4 turn stop_at_submitting os
  pure (push result results)

-- The orders that the sweep looks for.
abbrev pub is_eligible : List Settlement → Order → Bool
is_eligible settlements o =
    o.status === OrderStatus.settlement_pending
    && is_some o.wallet_address
    && (not (any (λ s. s.order_id == o.id) settlements)
        || any (λ s. s.order_id == o.id && s.status === SettlementStatus.pending) settlements)

-- `by_creation` sorts by `createdAt`.
unfoldable pub process_pending_orders :
    Executor
    → Config
    → LockAnswer
    → (List Order → List Order)
    → ℕ
    → (ℤ → ℤ)
    → (ℕ → Turn)
    → Option ℕ
    → Bool
    → Action (List Processed)
unfolding process_each audit_log locked_sweep
process_pending_orders executor cfg lock by_creation now round4 turn batch_size stop_at_submitting =
    if cfg.emergency_global_pause
    then audit_log Actor.system AuditAction.emergency_pause_encountered none >> pure []
    else locked_sweep cfg lock (
        gets (λ w.
          take (or_default 10 batch_size)
            (by_creation (select (is_eligible w.tables.settlements) w.tables.orders)))
        >>= process_each executor cfg now round4 turn stop_at_submitting)
