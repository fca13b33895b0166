-- ===== src/Settlement/Marks.antt =====
-- `SettlementService` of modules/settlements/settlements.service.ts: the changes of status.
use luminarail_backend.Base.{ℕ, ◌+◌, true, ◌&&◌, Option, none, some, ◌==◌, ◌===◌, if◌then◌else◌}
use luminarail_backend.Store.Status.{OrderStatus, SettlementStatus, settlement_status_enum}
use luminarail_backend.Store.Rows.{World, Settlement, Actor, AuditAction}
use luminarail_backend.Store.Config.{Config}
use luminarail_backend.Store.Action.{
  Action, pure, raise, modify, or_raise, transaction, audit_log, ◌>>=◌, ◌>>◌,
  concurrent_settlement_modification, record_missing,
}
use luminarail_backend.Store.Table.{
  find_settlement, update_settlement, update_many_settlement, update_order,
}
use luminarail_backend.Machine.Settlement.{validate_transition}
use luminarail_backend.Liquidity.Payout.{consume_reservation}
use luminarail_backend.Settlement.Service.{get_settlement_by_id}

-- The lost claim: another process has changed the status since it was read.
claim_lost : Option Settlement → Action Settlement
claim_lost none = raise concurrent_settlement_modification
claim_lost (some current) =
    if current.status === SettlementStatus.submitting
    then pure current
    else raise concurrent_settlement_modification

claim_won : ℕ → Action Settlement
unfolding audit_log
claim_won id = do
  found ← find_settlement (λ s. s.id == id)
  updated ← or_raise found record_missing
  audit_log Actor.system AuditAction.settlement_submitting (some updated.id)
  pure updated

-- `between` is what other processes commit between the read and the conditional update.
unfoldable pub mark_submitting : (World → World) → ℕ → Action Settlement
unfolding claim_lost claim_won get_settlement_by_id
mark_submitting between settlement_id = do
  settlement ← get_settlement_by_id settlement_id none true
  validate_transition settlement.status SettlementStatus.submitting
  modify between
  count ←
      update_many_settlement (λ s. s.id == settlement.id && s.status === settlement.status)
        (λ s. record s {
          status = SettlementStatus.submitting;
          attempt_count = s.attempt_count + 1;
        })
  current ← find_settlement (λ s. s.id == settlement.id)
  if count == 0 then claim_lost current else claim_won settlement.id

unfoldable pub mark_submitted : ℕ → ℕ → ℕ → Action Settlement
unfolding get_settlement_by_id audit_log
mark_submitted now settlement_id transaction_hash = do
  settlement ← get_settlement_by_id settlement_id none true
  validate_transition settlement.status SettlementStatus.submitted
  updated ← update_settlement settlement.id (λ s. record s {
    status = SettlementStatus.submitted;
    stellar_transaction_hash = some transaction_hash;
    submitted_at = some now;
  })
  audit_log Actor.system AuditAction.settlement_submitted (some updated.id)
  pure updated

unfoldable pub mark_confirming : ℕ → Action Settlement
unfolding get_settlement_by_id audit_log
mark_confirming settlement_id = do
  settlement ← get_settlement_by_id settlement_id none true
  validate_transition settlement.status SettlementStatus.confirming
  updated ← update_settlement settlement.id (λ s. record s { status = SettlementStatus.confirming })
  audit_log Actor.system AuditAction.settlement_confirming (some updated.id)
  pure updated

-- The transaction of `markCompleted`: the settlement and its order together.
unfoldable pub complete_in_tx : ℕ → ℕ → Settlement → Action Settlement
complete_in_tx now ledger settlement = do
  updated ← update_settlement settlement.id (λ s. record s {
    status = SettlementStatus.completed;
    stellar_ledger = some ledger;
    confirmed_at = some now;
  })
  update_order settlement.order_id (λ o. record o { status = OrderStatus.completed })
  pure updated

unfoldable pub mark_completed : Config → ℕ → ℕ → ℕ → Action Settlement
unfolding get_settlement_by_id complete_in_tx audit_log
mark_completed cfg now settlement_id ledger = do
  settlement ← get_settlement_by_id settlement_id none true
  validate_transition settlement.status SettlementStatus.completed
  updated ← transaction (complete_in_tx now ledger settlement)
  consume_reservation cfg now updated.order_id (some updated.settlement_id)
      updated.stellar_transaction_hash
  audit_log Actor.system AuditAction.settlement_completed (some updated.id)
  pure updated

unfoldable pub mark_failed : ℕ → ℕ → Action Settlement
unfolding get_settlement_by_id audit_log
mark_failed settlement_id reason = do
  settlement ← get_settlement_by_id settlement_id none true
  validate_transition settlement.status SettlementStatus.failed
  updated ←
      update_settlement settlement.id
        (λ s. record s { status = SettlementStatus.failed; last_error = some reason })
  audit_log Actor.system AuditAction.settlement_failed (some updated.id)
  pure updated

unfoldable pub mark_requires_reconciliation : ℕ → ℕ → Action Settlement
unfolding get_settlement_by_id audit_log
mark_requires_reconciliation settlement_id reason = do
  settlement ← get_settlement_by_id settlement_id none true
  validate_transition settlement.status SettlementStatus.requires_reconciliation
  updated ← update_settlement settlement.id (λ s. record s {
    status = SettlementStatus.requires_reconciliation;
    last_error = some reason;
  })
  audit_log Actor.system AuditAction.settlement_reconciliation_required (some updated.id)
  pure updated
