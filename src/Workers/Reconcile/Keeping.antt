-- ===== src/Workers/Reconcile/Keeping.antt =====
-- The reconciliation of settlements keeps the liquidity invariant.
use luminarail_backend.Base.{
  ℕ, ⊤, true, false, refl, not, Option, none, some, List, [], ◌∷◌, ◌==◌, arith, or_else,
}
use luminarail_backend.Store.Status.{OrderStatus, ReservationStatus, SettlementStatus}
use luminarail_backend.Store.Rows.{World, Settlement, Order, Reservation, Actor, AuditAction}
use luminarail_backend.Store.Config.{Config}
use luminarail_backend.Store.Action.{
  gets, Action, pure, or_raise, recover, transaction, audit_log, ◌>>=◌, ◌>>◌, settlement_not_found,
  invalid_settlement_transition,
}
use luminarail_backend.Store.Table.{find_settlement, update_order}
use luminarail_backend.Liquidity.Payout.{release_reservation, consume_reservation}
use luminarail_backend.Liquidity.Invariant.{IsSound}
use luminarail_backend.Lock.Guard.{LockAnswer}
use luminarail_backend.Liquidity.Keeps.{
  Keeps-locked_sweep, Keeps, Keeps-bind, Keeps-if, recover-Keeps, Keeps-or_raise, Keeps-raise_if,
  Keeps-untouched,
}
use luminarail_backend.Liquidity.Safety.Release.{release-IsSound}
use luminarail_backend.Liquidity.Safety.Consume.{consume-IsSound}
use luminarail_backend.Settlement.Marks.{
  mark_completed, mark_failed, mark_requires_reconciliation, complete_in_tx,
}
use luminarail_backend.Settlement.Service.{get_settlement_by_id}
use luminarail_backend.Machine.Settlement.{can_transition, validate_transition}
use luminarail_backend.Stellar.Confirmation.{RpcAnswer, ChainStatus, get_transaction_status}
use luminarail_backend.Workers.Reconcile.Settlement.{
  Reconciled, or_text, is_stale, outcome, fail_with_order, reconcile_unsubmitted,
  reconcile_submitted, expire_unsubmitted, flag_unsubmitted, settle_executed, settle_failed,
  settle_lost, reconcile_by_hash, reconcile_single_settlement, expired_without_hash,
  crashed_without_hash, failed_on_chain, lost_on_chain,
}
use luminarail_backend.Workers.Reconcile.Sweep.{
  reconcile_each, process_reconciliation, selected, or_default, not_reconciled,
}

pub mark_failed-Keeps : (k reason : ℕ) → Keeps (mark_failed k reason)
unfolding mark_failed
mark_failed-Keeps k reason =
    Keeps-untouched (mark_failed k reason) (λ w. (ground arith, ground arith, ground arith))

mark_requires-Keeps : (k reason : ℕ) → Keeps (mark_requires_reconciliation k reason)
unfolding mark_requires_reconciliation
mark_requires-Keeps k reason =
    Keeps-untouched (mark_requires_reconciliation k reason)
      (λ w. (ground arith, ground arith, ground arith))

complete_in_tx-Keeps :
    (now ledger : ℕ) (s : Settlement) → Keeps (transaction (complete_in_tx now ledger s))
unfolding complete_in_tx
complete_in_tx-Keeps now ledger s =
    Keeps-untouched (transaction (complete_in_tx now ledger s))
      (λ w. (ground arith, ground arith, ground arith))

fail_order-Keeps : (k : ℕ) → Keeps (update_order k (λ o. record o { status = OrderStatus.failed }))
fail_order-Keeps k =
    Keeps-untouched (update_order k (λ o. record o { status = OrderStatus.failed }))
      (λ w. (ground arith, ground arith, ground arith))

audit_log-Keeps : (a : Actor) (act : AuditAction) (r : Option ℕ) → Keeps (audit_log a act r)
unfolding audit_log
audit_log-Keeps a act r w h = h

get_settlement-Keeps : (k : ℕ) → Keeps (get_settlement_by_id k none true)
unfolding get_settlement_by_id
get_settlement-Keeps k =
    Keeps-untouched (get_settlement_by_id k none true)
      (λ w. (ground arith, ground arith, ground arith))

pub mark_completed-Keeps :
    (cfg : Config) (now k ledger : ℕ) → Keeps (mark_completed cfg now k ledger)
unfolding mark_completed get_settlement_by_id
mark_completed-Keeps cfg now k ledger =
    let consume : Settlement → Action (Option Reservation) = λ updated.
      consume_reservation cfg now updated.order_id (some updated.settlement_id)
        updated.stellar_transaction_hash in
    let log : Settlement → Action Settlement = λ updated.
      audit_log Actor.system AuditAction.settlement_completed (some updated.id) >> pure updated in
    let finish : Settlement → Action Settlement = λ updated. consume updated >> log updated in
    let complete : Settlement → Action Settlement =
      λ s. transaction (complete_in_tx now ledger s) in
    let guard : Settlement → Action ⊤ =
      λ s. validate_transition s.status SettlementStatus.completed in
    Keeps-bind (get_settlement_by_id k none true) (λ s. guard s >> (complete s >>= finish))
      (get_settlement-Keeps k)
      (λ s.
        Keeps-bind (guard s) (λ u. complete s >>= finish)
          (Keeps-raise_if (not (can_transition s.status SettlementStatus.completed))
            invalid_settlement_transition)
          (λ u. Keeps-bind (complete s) finish (complete_in_tx-Keeps now ledger s) (λ updated.
            Keeps-bind (consume updated) (λ r. log updated)
              (consume-IsSound cfg now updated.order_id (some updated.settlement_id)
                updated.stellar_transaction_hash)
              (λ r w h. h))))

fail_with_order-Keeps :
    (cfg : Config) (reason : ℕ) (s : Settlement) → Keeps (fail_with_order cfg reason s)
unfolding fail_with_order
fail_with_order-Keeps cfg reason s =
    let order_fails : Action Order =
      update_order s.order_id (λ o. record o { status = OrderStatus.failed }) in
    let release = release_reservation cfg s.order_id ReservationStatus.cancelled_released in
    Keeps-bind (mark_failed s.id reason) (λ failed. release >> (order_fails >> pure failed))
      (mark_failed-Keeps s.id reason)
      (λ failed.
        Keeps-bind release (λ r. order_fails >> pure failed)
          (λ w h. release-IsSound cfg s.order_id ReservationStatus.cancelled_released w refl h)
          (λ r.
            Keeps-bind order_fails (λ o. pure failed) (fail_order-Keeps s.order_id) (λ o w h. h)))

-- An action, then an entry of the audit log, then a result.
logged-Keeps :
    {A B : Type 0} (m : Action A) (a : Actor) (act : AuditAction) (r : Option ℕ) (f : A → B)
    → Keeps m
    → Keeps (m >>= λ x. audit_log a act r >> pure (f x))
logged-Keeps m a act r f keeps =
    Keeps-bind m (λ x. audit_log a act r >> pure (f x)) keeps
      (λ x. Keeps-bind (audit_log a act r) (λ u. pure (f x)) (audit_log-Keeps a act r) (λ u w h. h))

reconcile_unsubmitted-Keeps :
    (cfg : Config) (now max_hours : ℕ) (s : Settlement)
    → Keeps (reconcile_unsubmitted cfg now max_hours s)
unfolding reconcile_unsubmitted expire_unsubmitted flag_unsubmitted
reconcile_unsubmitted-Keeps cfg now max_hours s =
    Keeps-if (is_stale now max_hours s) (expire_unsubmitted cfg s) (flag_unsubmitted s)
      (logged-Keeps (fail_with_order cfg expired_without_hash s) Actor.system
        AuditAction.settlement_reconciliation_failed (some s.id)
        (λ failed. outcome s failed.status true) (fail_with_order-Keeps cfg expired_without_hash s))
      (logged-Keeps (mark_requires_reconciliation s.id crashed_without_hash) Actor.system
        AuditAction.settlement_reconciliation_flagged (some s.id)
        (λ flagged. outcome s flagged.status false) (mark_requires-Keeps s.id crashed_without_hash))

settle_lost-Keeps : (cfg : Config) (s : Settlement) → Keeps (settle_lost cfg s)
unfolding settle_lost
settle_lost-Keeps cfg s =
    Keeps-bind (fail_with_order cfg lost_on_chain s) (λ failed. pure (outcome s failed.status true))
      (fail_with_order-Keeps cfg lost_on_chain s) (λ failed w h. h)

reconcile_submitted-Keeps :
    (cfg : Config) (now max_hours : ℕ) (status : ChainStatus) (ledger error : Option ℕ)
    (s : Settlement)
    → Keeps (reconcile_submitted cfg now max_hours status ledger error s)
unfolding reconcile_submitted settle_executed settle_failed
reconcile_submitted-Keeps cfg now max_hours ChainStatus.success l error s =
    logged-Keeps (mark_completed cfg now s.id (or_else l 0)) Actor.system
      AuditAction.settlement_reconciled (some s.id) (λ done. outcome s done.status true)
      (mark_completed-Keeps cfg now s.id (or_else l 0))
reconcile_submitted-Keeps cfg now max_hours ChainStatus.failed l error s =
    logged-Keeps (fail_with_order cfg (or_text error failed_on_chain) s) Actor.system
      AuditAction.settlement_reconciliation_failed (some s.id)
      (λ failed. outcome s failed.status true)
      (fail_with_order-Keeps cfg (or_text error failed_on_chain) s)
reconcile_submitted-Keeps cfg now max_hours ChainStatus.not_found l error s =
    Keeps-if (is_stale now max_hours s) (settle_lost cfg s) (pure (outcome s s.status false))
      (settle_lost-Keeps cfg s) (λ w h. h)
reconcile_submitted-Keeps cfg now max_hours ChainStatus.pending l error s = λ w h. h

reconcile_by_hash-Keeps :
    (cfg : Config) (now max_hours : ℕ) (rpc : ℕ → RpcAnswer) (hash : Option ℕ) (s : Settlement)
    → Keeps (reconcile_by_hash cfg now max_hours rpc hash s)
unfolding reconcile_by_hash
reconcile_by_hash-Keeps cfg now max_hours rpc none s =
    reconcile_unsubmitted-Keeps cfg now max_hours s
reconcile_by_hash-Keeps cfg now max_hours rpc (some hash) s =
    let result = get_transaction_status (rpc hash) in
    reconcile_submitted-Keeps cfg now max_hours result.status result.ledger result.error s

-- The reconciliation of one settlement, whatever the chain answers and whatever throws, keeps the
-- liquidity invariant.
pub reconcile_single-Keeps :
    (cfg : Config) (now max_hours : ℕ) (rpc : ℕ → RpcAnswer) (k : ℕ)
    → Keeps (reconcile_single_settlement cfg now max_hours rpc k)
unfolding reconcile_single_settlement
reconcile_single-Keeps cfg now max_hours rpc k =
    let look : Action (Option Settlement) = find_settlement (λ s. s.id == k) in
    let go : Settlement → Action Reconciled =
      λ s. reconcile_by_hash cfg now max_hours rpc s.stellar_transaction_hash s in
    Keeps-bind look (λ found. or_raise found settlement_not_found >>= go) (λ w h. h)
      (λ found.
        Keeps-bind (or_raise found settlement_not_found) go
          (Keeps-or_raise found settlement_not_found)
          (λ s. reconcile_by_hash-Keeps cfg now max_hours rpc s.stellar_transaction_hash s))

reconcile_each-Keeps :
    (cfg : Config) (now max_hours : ℕ) (rpc : ℕ → RpcAnswer) (ss : List Settlement)
    → Keeps (reconcile_each cfg now max_hours rpc ss)
unfolding reconcile_each
reconcile_each-Keeps cfg now max_hours rpc [] = λ w h. h
reconcile_each-Keeps cfg now max_hours rpc (s ∷ ss) =
    let one = reconcile_single_settlement cfg now max_hours rpc s.id in
    let rest = reconcile_each cfg now max_hours rpc ss in
    Keeps-bind (recover one (pure (not_reconciled s)))
      (λ result. rest >>= λ results. pure (result ∷ results))
      (recover-Keeps one (pure (not_reconciled s))
        (reconcile_single-Keeps cfg now max_hours rpc s.id) (λ w h. h))
      (λ result.
        Keeps-bind rest (λ results. pure (result ∷ results))
          (reconcile_each-Keeps cfg now max_hours rpc ss) (λ results w h. h))

-- The sweep over the unsettled settlements keeps the liquidity invariant, however its lock is answered
-- for, whatever the chain answers for each of them, and whichever of them throws.
pub reconciliation-IsSound :
    (cfg : Config) (lock : LockAnswer) (by_update : List Settlement → List Settlement) (now : ℕ)
    (rpc : ℕ → RpcAnswer) (batch_size max_hours : Option ℕ) (w : World)
    → IsSound w
    → IsSound (process_reconciliation cfg lock by_update now rpc batch_size max_hours w).1
unfolding process_reconciliation
reconciliation-IsSound cfg lock by_update now rpc batch_size max_hours =
    Keeps-locked_sweep cfg lock _ (
      Keeps-bind (gets (selected by_update batch_size))
        (reconcile_each cfg now (or_default 24 max_hours) rpc) (λ w h. h)
        (reconcile_each-Keeps cfg now (or_default 24 max_hours) rpc))
