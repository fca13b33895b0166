-- ===== src/Payment/Verify.antt =====
-- `PaymentService.getPaymentById` and `verifyPayment` of modules/payments/payments.service.ts.
use luminarail_backend.Base.{
  ℕ, ⊤, Bool, not, ◌&&◌, ◌||◌, Option, none, some, ◌==◌, ◌===◌, if◌then◌else◌,
}
use luminarail_backend.Store.Status.{
  OrderStatus, order_status_enum, PaymentStatus, payment_status_enum, ReservationStatus,
}
use luminarail_backend.Store.Rows.{World, Order, Payment, Actor, AuditAction}
use luminarail_backend.Store.Config.{Config}
use luminarail_backend.Store.Action.{
  Action, pure, raise, modify, or_raise, raise_if, audit_log, ◌>>=◌, ◌>>◌, payment_not_found,
  payment_forbidden, concurrent_payment_modification, provider_failed, record_missing,
}
use luminarail_backend.Store.Table.{find_payment, update_many_payment, find_order, update_order}
use luminarail_backend.Machine.Payment.{validate_transition}
use luminarail_backend.Liquidity.Service.{confirm_reservation}
use luminarail_backend.Liquidity.Payout.{release_reservation}
use luminarail_backend.Settlement.Service.{lacks_wallet}

unfoldable pub get_payment_by_id : ℕ → ℕ → Bool → Action Payment
get_payment_by_id payment_id user_id is_admin = do
  found ← find_payment (λ p. p.id == payment_id)
  payment ← or_raise found payment_not_found
  raise_if (not is_admin && not (payment.user_id == user_id)) payment_forbidden
  pure payment

-- `isAlreadyCompletedOrAdvanced`, for a failed payment; a succeeded one also leaves
-- SETTLEMENT_PENDING alone.
abbrev pub is_over : OrderStatus → Bool
is_over status =
    status === OrderStatus.completed
    || status === OrderStatus.settlement_completed
    || status === OrderStatus.cancelled
    || status === OrderStatus.refunded

unfoldable pub advance_order : Option Order → Action ⊤
advance_order none = pure tt
advance_order (some order) =
    if is_over order.status || order.status === OrderStatus.settlement_pending
    then pure tt
    else update_order order.id (λ o. record o {
      status =
          if lacks_wallet order.wallet_address
          then OrderStatus.payment_confirmed
          else OrderStatus.settlement_pending;
    })
      >> pure tt

unfoldable pub fail_order : Option Order → Action ⊤
fail_order none = pure tt
fail_order (some order) =
    if is_over order.status
    then pure tt
    else update_order order.id (λ o. record o { status = OrderStatus.failed }) >> pure tt

-- What a verified status does to the reservation and the order.
unfoldable pub apply_outcome : Config → ℕ → PaymentStatus → Action ⊤
unfolding advance_order fail_order
apply_outcome cfg order_id status =
    if status === PaymentStatus.succeeded
    then confirm_reservation order_id >> find_order (λ o. o.id == order_id) >>= advance_order
    else if status === PaymentStatus.failed
    then release_reservation cfg order_id ReservationStatus.cancelled_released
      >> find_order (λ o. o.id == order_id)
      >>= fail_order
    else pure tt

unfoldable pub log_outcome : ℕ → Payment → Action Payment
unfolding audit_log
log_outcome user_id updated = do
  audit_log (Actor.user user_id) AuditAction.payment_verified (some updated.id)
  if updated.status === PaymentStatus.succeeded
      then audit_log (Actor.user user_id) AuditAction.payment_succeeded (some updated.id)
      else if updated.status === PaymentStatus.failed
      then audit_log (Actor.user user_id) AuditAction.payment_failed (some updated.id)
      else pure tt
  pure updated

-- Another process has changed the status since it was read.
unfoldable pub lost_update : PaymentStatus → Option Payment → Action Payment
lost_update status none = raise concurrent_payment_modification
lost_update status (some current) =
    if current.status === status then pure current else raise concurrent_payment_modification

unfoldable pub won_update : Config → ℕ → Payment → PaymentStatus → Action Payment
unfolding apply_outcome log_outcome
won_update cfg user_id payment status = do
  apply_outcome cfg payment.order_id status
  found ← find_payment (λ p. p.id == payment.id)
  updated ← or_raise found record_missing
  log_outcome user_id updated

-- `answer` is the status that the provider reports, or none if its call throws; `between` is what
-- other processes commit between the read and the conditional update.
unfoldable pub verify_payment :
    Config → (World → World) → Option PaymentStatus → ℕ → ℕ → Bool → Action Payment
unfolding get_payment_by_id lost_update won_update
verify_payment cfg between answer payment_id user_id is_admin = do
  payment ← get_payment_by_id payment_id user_id is_admin
  status ← or_raise answer provider_failed
  validate_transition payment.status status
  modify between
  count ←
      update_many_payment (λ p. p.id == payment.id && p.status === payment.status)
        (λ p. record p { status = status })
  current ← find_payment (λ p. p.id == payment.id)
  if count == 0 then lost_update status current else won_update cfg user_id payment status
