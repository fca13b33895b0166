-- ===== src/Workers/Reconcile/Outcome.antt =====
-- What the reconciliation of one settlement concludes from the chain's answer.
use luminarail_backend.Base.{
  ℕ, true, false, ◌≡◌, ◌≢◌, ◌⊎◌, refl, ap, sym, ◌∙◌, Option, none, some, find, ◌==◌, Bool-cases,
  inl, inr, arith,
}
use luminarail_backend.Store.Status.{OrderStatus, ReservationStatus, SettlementStatus}
use luminarail_backend.Store.Rows.{World, Settlement, Actor, AuditAction}
use luminarail_backend.Store.Config.{Config}
use luminarail_backend.Store.Action.{Action, bind-ok, ok_lem, audit_log, ok, pure, ◌>>=◌, ◌>>◌}
use luminarail_backend.Store.Table.{update_order}
use luminarail_backend.Liquidity.Payout.{release_reservation}
use luminarail_backend.Settlement.Marks.{
  mark_completed, complete_in_tx, mark_failed, mark_requires_reconciliation,
}
use luminarail_backend.Stellar.Confirmation.{RpcAnswer, ChainStatus, get_transaction_status}
use luminarail_backend.Workers.Reconcile.Settlement.{
  Reconciled, or_text, is_stale, outcome, fail_with_order, reconcile_unsubmitted,
  reconcile_submitted, expire_unsubmitted, flag_unsubmitted, settle_failed, settle_lost,
  reconcile_by_hash, reconcile_single_settlement, expired_without_hash, crashed_without_hash,
  failed_on_chain, lost_on_chain,
}

pub reconcile_read :
    (cfg : Config) (now max_hours k : ℕ) (rpc : ℕ → RpcAnswer) (s : Settlement) (w : World)
    → find (λ x. x.id == k) w.tables.settlements ≡ some s
    → reconcile_single_settlement cfg now max_hours rpc k w
      ≡ reconcile_by_hash cfg now max_hours rpc s.stellar_transaction_hash s w
unfolding reconcile_single_settlement
reconcile_read cfg now max_hours k rpc s w found = rw (◌>>=◌, found) (rw (◌>>=◌, found) refl)

mark_failed-status :
    (k reason : ℕ) (w : World) {s : Settlement}
    → (mark_failed k reason w).0 ≡ ok s
    → s.status ≡ SettlementStatus.failed
unfolding mark_failed
mark_failed-status k reason w h = ground arith

mark_requires-status :
    (k reason : ℕ) (w : World) {s : Settlement}
    → (mark_requires_reconciliation k reason w).0 ≡ ok s
    → s.status ≡ SettlementStatus.requires_reconciliation
unfolding mark_requires_reconciliation
mark_requires-status k reason w h = ground arith

mark_completed-status :
    (cfg : Config) (now k ledger : ℕ) (w : World) {s : Settlement}
    → (mark_completed cfg now k ledger w).0 ≡ ok s
    → s.status ≡ SettlementStatus.completed
unfolding mark_completed complete_in_tx
mark_completed-status cfg now k ledger w h = ground arith

logged_lem :
    {A B : Type 0} (m : Action A) (a : Actor) (act : AuditAction) (k : Option ℕ) (f : A → B)
    (w : World) {b : B}
    → ((m >>= λ x. audit_log a act k >> pure (f x)) w).0 ≡ ok b
    → (x : A) × ((m w).0 ≡ ok x) × (f x ≡ b)
unfolding audit_log
logged_lem m a act k f w h =
    let (x, done, end) = bind-ok m (λ x. audit_log a act k >> pure (f x)) w h in
    (x, done, ok_lem end)

fail_with_order-status :
    (cfg : Config) (reason : ℕ) (s : Settlement) (w : World) {r : Settlement}
    → (fail_with_order cfg reason s w).0 ≡ ok r
    → r.status ≡ SettlementStatus.failed
unfolding fail_with_order
fail_with_order-status cfg reason s w {r} h =
    let rest : Settlement → Action Settlement = λ failed.
      release_reservation cfg s.order_id ReservationStatus.cancelled_released
      >> (update_order s.order_id (λ o. record o { status = OrderStatus.failed }) >> pure failed) in
    let (failed, done, end) = bind-ok (mark_failed s.id reason) rest w h in
    let v = (mark_failed s.id reason w).1 in
    let (u, _, end') =
      bind-ok (release_reservation cfg s.order_id ReservationStatus.cancelled_released)
        (λ _.
          update_order s.order_id (λ o. record o { status = OrderStatus.failed }) >> pure failed)
        v end in
    let (o, _, end'') =
      bind-ok (update_order s.order_id (λ o. record o { status = OrderStatus.failed }))
        (λ _. pure failed)
        (release_reservation cfg s.order_id ReservationStatus.cancelled_released v).1 end' in
    ap (λ x. x.status) (sym (ok_lem end'')) ∙ mark_failed-status s.id reason w done

failing_end :
    (cfg : Config) (reason : ℕ) (s : Settlement) (w : World) {x : Settlement} {r : Reconciled}
    → (fail_with_order cfg reason s w).0 ≡ ok x
    → outcome s x.status true ≡ r
    → r.new_status ≡ SettlementStatus.failed
failing_end cfg reason s w done end =
    ap (λ r. r.new_status) (sym end) ∙ fail_with_order-status cfg reason s w done

unsubmitted_fails_or_waits :
    (cfg : Config) (now max_hours : ℕ) (s : Settlement) (w : World) {r : Reconciled}
    → (reconcile_unsubmitted cfg now max_hours s w).0 ≡ ok r
    → (r.new_status ≡ SettlementStatus.failed)
      ⊎ (r.new_status ≡ SettlementStatus.requires_reconciliation)
unfolding reconcile_unsubmitted expire_unsubmitted flag_unsubmitted
unsubmitted_fails_or_waits cfg now max_hours s w h = elim (Bool-cases (is_stale now max_hours s)) [
  | inl stale ↦
      let (x, done, end) =
        logged_lem (fail_with_order cfg expired_without_hash s) Actor.system
          AuditAction.settlement_reconciliation_failed (some s.id)
          (λ failed. outcome s failed.status true) w (rw stale at h) in
      inl (failing_end cfg expired_without_hash s w done end)
  | inr recent ↦
      let (x, done, end) =
        logged_lem (mark_requires_reconciliation s.id crashed_without_hash) Actor.system
          AuditAction.settlement_reconciliation_flagged (some s.id)
          (λ flagged. outcome s flagged.status false) w (rw recent at h) in
      inr (ap (λ r. r.new_status) (sym end) ∙ mark_requires-status s.id crashed_without_hash w done)
]

submitted_by_status :
    (cfg : Config) (now max_hours : ℕ) (status : ChainStatus) (ledger error : Option ℕ)
    (s : Settlement) (w : World) {r : Reconciled}
    → (reconcile_submitted cfg now max_hours status ledger error s w).0 ≡ ok r
    → (status ≡ ChainStatus.success)
      ⊎ ((r.new_status ≡ SettlementStatus.failed) ⊎ (r.new_status ≡ s.status))
unfolding reconcile_submitted settle_failed settle_lost
submitted_by_status cfg now max_hours ChainStatus.success ledger error s w h = inl refl
submitted_by_status cfg now max_hours ChainStatus.failed ledger error s w h =
    let (x, done, end) =
      logged_lem (fail_with_order cfg (or_text error failed_on_chain) s) Actor.system
        AuditAction.settlement_reconciliation_failed (some s.id)
        (λ failed. outcome s failed.status true) w h in
    inr (inl (failing_end cfg (or_text error failed_on_chain) s w done end))
submitted_by_status cfg now max_hours ChainStatus.not_found ledger error s w h =
    elim (Bool-cases (is_stale now max_hours s)) [
      | inl stale ↦
          let (x, done, end) =
            bind-ok (fail_with_order cfg lost_on_chain s)
              (λ failed. pure (outcome s failed.status true)) w (rw stale at h) in
          inr (inl (failing_end cfg lost_on_chain s w done (ok_lem end)))
      | inr recent ↦ inr (inr (ap (λ r. r.new_status) (sym (ok_lem (rw recent at h)))))
    ]
submitted_by_status cfg now max_hours ChainStatus.pending ledger error s w h =
    inr (inr (ap (λ r. r.new_status) (sym (ok_lem h))))

success_lem :
    (a : RpcAnswer)
    → (get_transaction_status a).status ≡ ChainStatus.success
    → (n : ℕ) × (a ≡ RpcAnswer.success n)
unfolding get_transaction_status
success_lem (RpcAnswer.success n) h = (n, refl)
success_lem (RpcAnswer.failed n) h = cc
success_lem RpcAnswer.not_found h = cc
success_lem RpcAnswer.pending h = cc
success_lem (RpcAnswer.thrown n) h = cc

completed_by_hash :
    (cfg : Config) (now max_hours : ℕ) (rpc : ℕ → RpcAnswer) (hash : Option ℕ) (s : Settlement)
    (w : World) (r : Reconciled)
    → (reconcile_by_hash cfg now max_hours rpc hash s w).0 ≡ ok r
    → r.new_status ≡ SettlementStatus.completed
    → s.status ≢ SettlementStatus.completed
    → (h : ℕ) × (ledger : ℕ) × (hash ≡ some h) × (rpc h ≡ RpcAnswer.success ledger)
unfolding reconcile_by_hash
completed_by_hash cfg now max_hours rpc none s w r h done fresh =
    elim (unsubmitted_fails_or_waits cfg now max_hours s w h) [
      | inl f ↦ absurd (cc)
      | inr f ↦ absurd (cc)
    ]
completed_by_hash cfg now max_hours rpc (some hash) s w r h done fresh =
    let result = get_transaction_status (rpc hash) in
    elim (submitted_by_status cfg now max_hours result.status result.ledger result.error s w h) [
      | inl executed ↦ let (n, e) = success_lem (rpc hash) executed in (hash, n, refl, e)
      | inr (inl f) ↦ absurd (cc)
      | inr (inr f) ↦ absurd (fresh (sym f ∙ done))
    ]

-- When the reconciliation of a settlement that is not COMPLETED returns COMPLETED as its new status,
-- the settlement has a transaction hash for which the chain has answered SUCCESS.
pub completed_only_if_executed :
    (cfg : Config) (now max_hours k : ℕ) (rpc : ℕ → RpcAnswer) (s : Settlement) (w : World)
    (r : Reconciled)
    → find (λ x. x.id == k) w.tables.settlements ≡ some s
    → (reconcile_single_settlement cfg now max_hours rpc k w).0 ≡ ok r
    → r.new_status ≡ SettlementStatus.completed
    → s.status ≢ SettlementStatus.completed
    → (hash : ℕ) × (ledger : ℕ) × (s.stellar_transaction_hash ≡ some hash)
      × (rpc hash ≡ RpcAnswer.success ledger)
completed_only_if_executed cfg now max_hours k rpc s w r found h =
    completed_by_hash cfg now max_hours rpc s.stellar_transaction_hash s w r
      (ap (λ e. e.0) (sym (reconcile_read cfg now max_hours k rpc s w found)) ∙ h)
