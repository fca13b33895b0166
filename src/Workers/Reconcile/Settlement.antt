-- ===== src/Workers/Reconcile/Settlement.antt =====
-- `reconcileSingleSettlement` of workers/reconciliation.daemon.ts.
use luminarail_backend.Base.{
  ℕ, ◌+◌, ◌*◌, Bool, true, false, Option, none, some, ltb, or_else, ◌==◌, if◌then◌else◌,
}
use luminarail_backend.Store.Status.{OrderStatus, ReservationStatus, SettlementStatus}
use luminarail_backend.Store.Rows.{Settlement, Actor, AuditAction}
use luminarail_backend.Store.Config.{Config}
use luminarail_backend.Store.Action.{
  Action, pure, or_raise, audit_log, ◌>>=◌, ◌>>◌, settlement_not_found,
}
use luminarail_backend.Store.Table.{find_settlement, update_order}
use luminarail_backend.Liquidity.Payout.{release_reservation}
use luminarail_backend.Settlement.Marks.{mark_completed, mark_failed, mark_requires_reconciliation}
use luminarail_backend.Stellar.Confirmation.{RpcAnswer, ChainStatus, get_transaction_status}

-- `ReconciledSettlementResult`; `has_error` says whether it has an error's text.
pub record Reconciled : Type 0 where
  pub settlement_id : ℕ
  pub order_id : ℕ
  pub previous_status : SettlementStatus
  pub new_status : SettlementStatus
  pub reconciled : Bool
  pub has_error : Bool

-- The reasons that are written to a settlement, numbered.
abbrev pub expired_without_hash : ℕ
expired_without_hash = 1

abbrev pub crashed_without_hash : ℕ
crashed_without_hash = 2

abbrev pub failed_on_chain : ℕ
failed_on_chain = 3

abbrev pub lost_on_chain : ℕ
lost_on_chain = 4

-- `error || text`
abbrev pub or_text : Option ℕ → ℕ → ℕ
or_text none text = text
or_text (some n) text = if n == 0 then text else n

-- `ageMs > maxAgeMs`
abbrev pub is_stale : ℕ → ℕ → Settlement → Bool
is_stale now max_hours s = ltb (s.created_at + max_hours * 60 * 60 * 1000) now

abbrev pub outcome : Settlement → SettlementStatus → Bool → Reconciled
outcome s new done = record {
  settlement_id = s.settlement_id;
  order_id = s.order_id;
  previous_status = s.status;
  new_status = new;
  reconciled = done;
  has_error = false;
}

-- What the three failing cases share: the settlement fails, its liquidity is released, its order
-- fails.
unfoldable pub fail_with_order : Config → ℕ → Settlement → Action Settlement
unfolding mark_failed release_reservation
fail_with_order cfg reason s = do
  failed ← mark_failed s.id reason
  release_reservation cfg s.order_id ReservationStatus.cancelled_released
  update_order s.order_id (λ o. record o { status = OrderStatus.failed })
  pure failed

-- Case 1: no transaction hash, and too old or not.
unfoldable pub expire_unsubmitted : Config → Settlement → Action Reconciled
unfolding fail_with_order audit_log
expire_unsubmitted cfg s = do
  failed ← fail_with_order cfg expired_without_hash s
  audit_log Actor.system AuditAction.settlement_reconciliation_failed (some s.id)
  pure (outcome s failed.status true)

unfoldable pub flag_unsubmitted : Settlement → Action Reconciled
unfolding mark_requires_reconciliation audit_log
flag_unsubmitted s = do
  flagged ← mark_requires_reconciliation s.id crashed_without_hash
  audit_log Actor.system AuditAction.settlement_reconciliation_flagged (some s.id)
  pure (outcome s flagged.status false)

unfoldable pub reconcile_unsubmitted : Config → ℕ → ℕ → Settlement → Action Reconciled
unfolding expire_unsubmitted flag_unsubmitted
reconcile_unsubmitted cfg now max_hours s =
    if is_stale now max_hours s then expire_unsubmitted cfg s else flag_unsubmitted s

-- Case 2: the chain has executed the transaction, or says that it failed.
unfoldable pub settle_executed : Config → ℕ → Option ℕ → Settlement → Action Reconciled
unfolding mark_completed audit_log
settle_executed cfg now ledger s = do
  completed ← mark_completed cfg now s.id (or_else ledger 0)
  audit_log Actor.system AuditAction.settlement_reconciled (some s.id)
  pure (outcome s completed.status true)

unfoldable pub settle_failed : Config → Option ℕ → Settlement → Action Reconciled
unfolding fail_with_order audit_log
settle_failed cfg error s = do
  failed ← fail_with_order cfg (or_text error failed_on_chain) s
  audit_log Actor.system AuditAction.settlement_reconciliation_failed (some s.id)
  pure (outcome s failed.status true)

-- Case 3: the chain does not know the transaction.
unfoldable pub settle_lost : Config → Settlement → Action Reconciled
unfolding fail_with_order
settle_lost cfg s = do
  failed ← fail_with_order cfg lost_on_chain s
  pure (outcome s failed.status true)

unfoldable pub reconcile_submitted :
    Config → ℕ → ℕ → ChainStatus → Option ℕ → Option ℕ → Settlement → Action Reconciled
unfolding settle_executed settle_failed settle_lost
reconcile_submitted cfg now max_hours ChainStatus.success ledger error s =
    settle_executed cfg now ledger s
reconcile_submitted cfg now max_hours ChainStatus.failed ledger error s = settle_failed cfg error s
reconcile_submitted cfg now max_hours ChainStatus.not_found ledger error s =
    if is_stale now max_hours s then settle_lost cfg s else pure (outcome s s.status false)
reconcile_submitted cfg now max_hours ChainStatus.pending ledger error s =
    pure (outcome s s.status false)

-- `rpc` is what the RPC answers for each hash; the hash here is the settlement's own.
unfoldable pub reconcile_by_hash :
    Config → ℕ → ℕ → (ℕ → RpcAnswer) → Option ℕ → Settlement → Action Reconciled
unfolding reconcile_unsubmitted reconcile_submitted get_transaction_status
reconcile_by_hash cfg now max_hours rpc none s = reconcile_unsubmitted cfg now max_hours s
reconcile_by_hash cfg now max_hours rpc (some hash) s =
    let result = get_transaction_status (rpc hash) in
    reconcile_submitted cfg now max_hours result.status result.ledger result.error s

unfoldable pub reconcile_single_settlement :
    Config → ℕ → ℕ → (ℕ → RpcAnswer) → ℕ → Action Reconciled
unfolding reconcile_by_hash
reconcile_single_settlement cfg now max_hours rpc settlement_db_id = do
  found ← find_settlement (λ s. s.id == settlement_db_id)
  settlement ← or_raise found settlement_not_found
  reconcile_by_hash cfg now max_hours rpc settlement.stellar_transaction_hash settlement
