-- ===== src/Machine/Tests.antt =====
-- Instances of the theorems on the state machines, at concrete histories.
use luminarail_backend.Base.{◌≡◌, refl, true, false, includes}
use luminarail_backend.Store.Status.{
  OrderStatus, SettlementStatus, RefundStatus, order_status_enum, payment_status_enum,
  settlement_status_enum,
}
use luminarail_backend.Machine.Walk.{Walk, here, step, visits}
use luminarail_backend.Machine.Order
use luminarail_backend.Machine.Payment
use luminarail_backend.Machine.Settlement
use luminarail_backend.Machine.Refund
use luminarail_backend.Machine.History.{
  is_refunding, is_paid_out, refunding_final, paid_out_final, order_table,
  completed_visits_submitting,
}

refund_history : Walk Order.can_transition OrderStatus.refund_pending OrderStatus.refunded
unfolding Order.can_transition
refund_history = step {t = OrderStatus.refund_failed} refl (step refl here)

refunding_final_example :
    (is_refunding OrderStatus.refunded ≡ true) × (is_paid_out OrderStatus.refunded ≡ false)
refunding_final_example = refunding_final refund_history refl

paid_history : Walk Order.can_transition OrderStatus.settlement_completed OrderStatus.completed
unfolding Order.can_transition
paid_history = step refl here

paid_out_final_example :
    (is_paid_out OrderStatus.completed ≡ true) × (is_refunding OrderStatus.completed ≡ false)
paid_out_final_example = paid_out_final paid_history refl

order_table_example :
    Order.can_transition OrderStatus.completed OrderStatus.refund_pending
    ≡ includes (Order.allowed_transitions OrderStatus.completed) OrderStatus.refund_pending
order_table_example = order_table OrderStatus.completed OrderStatus.refund_pending

settlement_history :
    Walk Settlement.can_transition SettlementStatus.pending SettlementStatus.completed
unfolding Settlement.can_transition
settlement_history = step {t = SettlementStatus.submitting} refl (
    step {t = SettlementStatus.submitted} refl
      (step {t = SettlementStatus.confirming} refl (step refl here)))

completed_visits_submitting_example : visits SettlementStatus.submitting settlement_history ≡ true
completed_visits_submitting_example = completed_visits_submitting settlement_history

settled_history : Walk Settlement.can_transition SettlementStatus.failed SettlementStatus.failed
unfolding Settlement.can_transition
settled_history = step refl here

refunded_history : Walk Refund.can_transition RefundStatus.succeeded RefundStatus.succeeded
unfolding Refund.can_transition
refunded_history = step refl here
