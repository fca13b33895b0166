-- ===== src/Workers/Reconcile/Payment.antt =====
-- `reconcileSinglePaymentOrder` of workers/reconciliation.daemon.ts.
use luminarail_backend.Base.{
  ℕ, ⊤, Bool, true, false, not, ◌&&◌, ◌||◌, Option, none, some, [], ◌∷◌, includes, or_else, ◌==◌,
  ◌===◌, if◌then◌else◌,
}
use luminarail_backend.Int.{ℤ, lt}
use luminarail_backend.Store.Status.{
  OrderStatus, order_status_enum, PaymentStatus, payment_status_enum, RefundStatus,
  refund_status_enum, ReservationStatus, SettlementStatus, Currency, currency_enum,
}
use luminarail_backend.Store.Rows.{
  Order, Payment, Refund, Reservation, Settlement, Actor, AuditAction,
}
use luminarail_backend.Store.Config.{Config}
use luminarail_backend.Store.Action.{Action, pure, fresh, transaction, audit_log, ◌>>=◌, ◌>>◌}
use luminarail_backend.Store.Table.{
  find_order, update_order, find_payment, update_payment, find_refund, find_reservation,
  find_settlement, insert_settlement,
}
use luminarail_backend.Liquidity.Service.{confirm_reservation_in_tx}
use luminarail_backend.Liquidity.Payout.{is_released, release_reservation_in_tx}

pub data ActionTaken : Type 0 where
  confirmed_and_settled marked_failed deferred skipped : ActionTaken

-- `ReconciledPaymentResult`; an absent reference is the source's empty text.
pub record PaymentResult : Type 0 where
  pub order_id : ℕ
  pub reference : Option ℕ
  pub previous_status : OrderStatus
  pub new_status : OrderStatus
  pub reconciled : Bool
  pub action : ActionTaken

-- What the provider's `verifyPayment` returns: the amount in the order's units and the currency, each
-- absent where its text is neither a number nor a known currency.
pub record Verified : Type 0 where
  pub status : PaymentStatus
  pub amount : Option ℤ
  pub currency : Option Currency
  pub provider_payment_id : Option ℕ

-- A result that leaves the order's status.
abbrev pub unchanged : Order → Option ℕ → ActionTaken → PaymentResult
unchanged order reference action = record {
  order_id = order.id;
  reference = reference;
  previous_status = order.status;
  new_status = order.status;
  reconciled = false;
  action = action;
}

abbrev pub changed : Order → ℕ → OrderStatus → ActionTaken → PaymentResult
changed order reference new action = record {
  order_id = order.id;
  reference = some reference;
  previous_status = order.status;
  new_status = new;
  reconciled = true;
  action = action;
}

-- `payment?.reference || order.idempotencyKey || ''`
abbrev pub reference_of : Option Payment → Order → Option ℕ
reference_of none order = order.idempotency_key
reference_of (some payment) order = some payment.reference

abbrev pub blocks : Option Refund → Bool
blocks none = false
blocks (some r) =
    r.status === RefundStatus.succeeded
    || r.status === RefundStatus.processing
    || r.status === RefundStatus.pending

abbrev pub was_released : Option Reservation → Bool
was_released none = false
was_released (some r) = is_released r.status

-- The order is past the reconcilable statuses, or is being refunded, or has lost its liquidity.
abbrev pub is_ineligible : Order → Option Refund → Option Reservation → Bool
is_ineligible order refund reservation =
    not (
      includes
        (OrderStatus.awaiting_payment ∷ OrderStatus.payment_detected ∷ OrderStatus.created ∷ [])
        order.status)
    || blocks refund
    || was_released reservation

-- Exact, where the source compares the nearest floating-point numbers.
abbrev pub same_amount : Option ℤ → ℤ → Bool
same_amount none b = false
same_amount (some a) b = not (lt a b) && not (lt b a)

abbrev pub same_currency : Option Currency → Currency → Bool
same_currency none b = false
same_currency (some a) b = a === b

-- `if (payment) { await tx.payment.update(…) }`
unfoldable pub mark_payment : Option Payment → (Payment → Payment) → Action ⊤
mark_payment none f = pure tt
mark_payment (some payment) f = update_payment payment.id f >> pure tt

-- What a payment that failed or does not match does to its order.
unfoldable pub fail_order : Config → Order → Option Payment → ℕ → Action PaymentResult
unfolding mark_payment release_reservation_in_tx audit_log
fail_order cfg order payment reference = do
  update_order order.id (λ o. record o { status = OrderStatus.failed })
  mark_payment payment (λ p. record p { status = PaymentStatus.failed })
  release_reservation_in_tx cfg order.id ReservationStatus.cancelled_released
  audit_log Actor.system AuditAction.payment_reconciliation_failed (some order.id)
  pure (changed order reference OrderStatus.failed ActionTaken.marked_failed)

-- The settlement's row, if the order has none yet.
unfoldable pub ensure_settlement : Config → ℕ → (ℤ → ℤ) → Order → Option Settlement → Action ⊤
ensure_settlement cfg now round4 order (some existing) = pure tt
ensure_settlement cfg now round4 order none = do
  settlement_id ← fresh
  id ← fresh
  insert_settlement (record {
    id = id;
    settlement_id = settlement_id;
    order_id = order.id;
    user_id = order.user_id;
    status = SettlementStatus.pending;
    asset = order.destination_asset;
    amount = round4 order.destination_amount;
    source = cfg.signer_public_key;
    destination = order.wallet_address;
    stellar_transaction_hash = none;
    stellar_ledger = none;
    attempt_count = 0;
    last_error = none;
    submitted_at = none;
    confirmed_at = none;
    created_at = now;
  })
  pure tt

unfoldable pub confirm_order :
    Config → ℕ → (ℤ → ℤ) → Order → Option Payment → ℕ → Verified → Action PaymentResult
unfolding mark_payment confirm_reservation_in_tx ensure_settlement audit_log
confirm_order cfg now round4 order payment reference verified = do
  mark_payment payment (λ p. record p {
    status = PaymentStatus.succeeded;
    provider_payment_id = some (or_else verified.provider_payment_id reference);
  })
  update_order order.id (λ o. record o { status = OrderStatus.payment_confirmed })
  confirm_reservation_in_tx order.id
  existing ← find_settlement (λ s. s.order_id == order.id)
  ensure_settlement cfg now round4 order existing
  audit_log Actor.system AuditAction.payment_reconciled_success (some order.id)
  pure (changed order reference OrderStatus.payment_confirmed ActionTaken.confirmed_and_settled)

unfoldable pub defer_order : Order → ℕ → Action PaymentResult
unfolding audit_log
defer_order order reference = do
  audit_log Actor.system AuditAction.payment_reconciliation_deferred (some order.id)
  pure (unchanged order (some reference) ActionTaken.deferred)

-- By the provider's answer, none if its call throws.
unfoldable pub apply_verification :
    Config → ℕ → (ℤ → ℤ) → Order → Option Payment → ℕ → Option Verified → Action PaymentResult
unfolding fail_order confirm_order defer_order
apply_verification cfg now round4 order payment reference none = defer_order order reference
apply_verification cfg now round4 order payment reference (some verified) =
    if verified.status === PaymentStatus.succeeded
    then if same_amount verified.amount order.source_amount
        && same_currency verified.currency order.source_currency
      then confirm_order cfg now round4 order payment reference verified
      else fail_order cfg order payment reference
    else if verified.status === PaymentStatus.failed
    then fail_order cfg order payment reference
    else defer_order order reference

unfoldable pub reconcile_referenced :
    Config
    → ℕ
    → (ℤ → ℤ)
    → (ℕ → Option Verified)
    → Order
    → Option Payment
    → Option Refund
    → Option ℕ
    → Action PaymentResult
unfolding apply_verification
reconcile_referenced cfg now round4 verify order payment refund none =
    pure (unchanged order none ActionTaken.skipped)
reconcile_referenced cfg now round4 verify order payment refund (some reference) = do
  reservation ← find_reservation (λ r. r.order_id == order.id)
  if is_ineligible order refund reservation
      then pure (unchanged order (some reference) ActionTaken.skipped)
      else apply_verification cfg now round4 order payment reference (verify reference)

unfoldable pub reconcile_order :
    Config → ℕ → (ℤ → ℤ) → (ℕ → Option Verified) → ℕ → Option Order → Action PaymentResult
unfolding reconcile_referenced
reconcile_order cfg now round4 verify order_id none = pure (record {
  order_id = order_id;
  reference = none;
  previous_status = OrderStatus.cancelled;
  new_status = OrderStatus.cancelled;
  reconciled = false;
  action = ActionTaken.skipped;
})
reconcile_order cfg now round4 verify order_id (some order) = do
  payment ← find_payment (λ p. p.order_id == order.id)
  refund ← find_refund (λ r. r.order_id == order.id)
  reconcile_referenced cfg now round4 verify order payment refund (reference_of payment order)

-- `verify` is what the payment's provider answers for each reference.
unfoldable pub reconcile_single_payment_order :
    Config → ℕ → (ℤ → ℤ) → (ℕ → Option Verified) → ℕ → Action PaymentResult
unfolding reconcile_order
reconcile_single_payment_order cfg now round4 verify order_id =
    transaction
      (find_order (λ o. o.id == order_id) >>= reconcile_order cfg now round4 verify order_id)
