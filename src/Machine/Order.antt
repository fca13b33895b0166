-- ===== src/Machine/Order.antt =====
-- `OrderStateMachine` of modules/orders/orders.state-machine.ts.
use luminarail_backend.Base.{
  ⊤, not, Bool, true, false, ◌||◌, ◌&&◌, List, [], ◌∷◌, ◌===◌, includes, if◌then◌else◌,
}
use luminarail_backend.Store.Action.{Action, raise_if, invalid_order_transition}
use luminarail_backend.Store.Status.{OrderStatus, order_status_enum}

abbrev pub allowed_transitions : OrderStatus → List OrderStatus
allowed_transitions OrderStatus.created =
    OrderStatus.created ∷ OrderStatus.awaiting_payment ∷ OrderStatus.cancelled ∷ OrderStatus.expired
    ∷ []
allowed_transitions OrderStatus.awaiting_payment =
    OrderStatus.awaiting_payment ∷ OrderStatus.payment_detected ∷ OrderStatus.payment_confirmed
    ∷ OrderStatus.settlement_pending ∷ OrderStatus.failed ∷ OrderStatus.cancelled
    ∷ OrderStatus.expired ∷ OrderStatus.refund_pending ∷ OrderStatus.refunded ∷ []
allowed_transitions OrderStatus.payment_detected =
    OrderStatus.payment_detected ∷ OrderStatus.payment_confirmed ∷ OrderStatus.settlement_pending
    ∷ OrderStatus.failed ∷ OrderStatus.cancelled ∷ OrderStatus.refund_pending ∷ OrderStatus.refunded
    ∷ []
allowed_transitions OrderStatus.payment_confirmed =
    OrderStatus.payment_confirmed ∷ OrderStatus.settlement_pending ∷ OrderStatus.failed
    ∷ OrderStatus.cancelled ∷ OrderStatus.refund_pending ∷ OrderStatus.refunded ∷ []
allowed_transitions OrderStatus.settlement_pending =
    OrderStatus.settlement_pending ∷ OrderStatus.settlement_completed ∷ OrderStatus.completed
    ∷ OrderStatus.failed ∷ OrderStatus.cancelled ∷ OrderStatus.refund_pending ∷ OrderStatus.refunded
    ∷ []
allowed_transitions OrderStatus.settlement_completed =
    OrderStatus.settlement_completed ∷ OrderStatus.completed ∷ []
allowed_transitions OrderStatus.completed = OrderStatus.completed ∷ []
allowed_transitions OrderStatus.failed =
    OrderStatus.failed ∷ OrderStatus.refund_pending ∷ OrderStatus.refunded ∷ []
allowed_transitions OrderStatus.cancelled =
    OrderStatus.cancelled ∷ OrderStatus.refund_pending ∷ OrderStatus.refunded ∷ []
allowed_transitions OrderStatus.refund_pending =
    OrderStatus.refund_pending ∷ OrderStatus.refunded ∷ OrderStatus.refund_failed ∷ []
allowed_transitions OrderStatus.refunded = OrderStatus.refunded ∷ []
allowed_transitions OrderStatus.refund_failed =
    OrderStatus.refund_failed ∷ OrderStatus.refund_pending ∷ OrderStatus.refunded ∷ []
allowed_transitions OrderStatus.expired =
    OrderStatus.expired ∷ OrderStatus.refund_pending ∷ OrderStatus.refunded ∷ []

unfoldable pub can_transition : OrderStatus → OrderStatus → Bool
can_transition current target =
    if current === target
    then true
    else if current === OrderStatus.refunded
    then target === OrderStatus.refunded
    else if (current === OrderStatus.completed || current === OrderStatus.settlement_completed)
        && (target === OrderStatus.settlement_pending || target === OrderStatus.refund_pending)
    then false
    else includes (allowed_transitions current) target

abbrev pub validate_transition : OrderStatus → OrderStatus → Action ⊤
validate_transition from to = raise_if (not (can_transition from to)) invalid_order_transition
