-- ===== src/Refund/Create.antt =====
-- `RefundService.createRefund` of modules/refunds/refunds.service.ts.
use Prim.Native.Nat.{◌^◌}
use luminarail_backend.Base.{
  ◌+◌, ◌*◌, ◌/◌, ltb, ℕ, Bool, true, false, not, ◌&&◌, ◌||◌, Option, none, some, List, [], ◌∷◌,
  find, select, ◌==◌, ◌===◌, includes, is_some, if◌then◌else◌, or_else,
}
use luminarail_backend.Int.{ℤ, pos, ◌+ℤ◌, ◌-ℤ◌, lte, surplus}
use luminarail_backend.Store.Status.{
  OrderStatus, order_status_enum, PaymentStatus, payment_status_enum, SettlementStatus,
  settlement_status_enum, RefundStatus, refund_status_enum,
}
use luminarail_backend.Store.Rows.{World, Order, Payment, Refund, Settlement, Actor, AuditAction}
use luminarail_backend.Store.Action.{
  Error, Result, ok, err, Action, lift, throw_any, pure, gets, or_raise, raise_if, fresh, audit_log,
  transaction, ◌>>=◌, ◌>>◌, order_not_found, order_forbidden, refund_state_forbidden,
  order_already_settled, settlement_active, no_eligible_payment, idempotency_conflict,
  fully_refunded, refund_amount_not_positive, refund_exceeds_remaining, malformed_decimal,
}
use luminarail_backend.Store.Table.{find_order, find_refund, update_order, insert_refund}
use luminarail_backend.Machine.Order.{validate_transition}

-- What `new Decimal` makes of the text of an amount: `decimal x places` is x * 10^-(4 + places) NGN,
-- where 10^-4 is the unit of the column. The schema rules NaN out.
pub data RequestedAmount : Type 0 where
  decimal : ℤ → ℕ → RequestedAmount
  infinite malformed : RequestedAmount

-- The request; an empty amount is none.
pub record RefundInput : Type 0 where
  pub order_id : ℕ
  pub payment_id : Option ℕ
  pub amount : Option RequestedAmount
  pub reason : ℕ
  pub idempotency_key : Option ℕ

-- `{ refund, isDuplicate }`
pub record CreatedRefund : Type 0 where
  pub refund : Refund
  pub is_duplicate : Bool

abbrev pub allowed_user_states : List OrderStatus
allowed_user_states =
    OrderStatus.failed ∷ OrderStatus.expired ∷ OrderStatus.cancelled ∷ OrderStatus.refund_failed
    ∷ OrderStatus.refund_pending ∷ []

-- The settlements that rule a refund out.
abbrev pub is_active_settlement : Settlement → Bool
is_active_settlement s =
    s.status === SettlementStatus.submitting
    || s.status === SettlementStatus.submitted
    || s.status === SettlementStatus.confirming
    || s.status === SettlementStatus.requires_reconciliation
    || s.status === SettlementStatus.completed

-- The refunds that count against the captured amount.
abbrev pub counts : ℕ → Refund → Bool
counts order_id r =
    r.order_id == order_id
    && includes (RefundStatus.pending ∷ RefundStatus.processing ∷ RefundStatus.succeeded ∷ [])
        r.status

abbrev pub first_of {ℓ} : {A : Type ℓ} → List A → Option A
first_of [] = none
first_of (a ∷ _) = some a

abbrev pub first_choice {ℓ} : {A : Type ℓ} → Option A → Option A → Option A
first_choice none b = b
first_choice (some a) b = some a

-- The payment that the refund is for, of the order's payments.
unfoldable pub locate_payment : Option ℕ → List Payment → Option Payment
locate_payment (some id) payments = find (λ p. p.id == id) payments
locate_payment none payments =
    first_choice (find (λ p. p.status === PaymentStatus.succeeded) payments) (first_of payments)

-- `refunds.reduce((sum, r) => sum.plus(r.amount), …)`
unfoldable pub sum_amounts : ℤ → List Refund → ℤ
sum_amounts sum [] = sum
sum_amounts sum (r ∷ rs) = sum_amounts (sum +ℤ r.amount) rs

abbrev pub total_refunded : ℕ → World → ℤ
total_refunded order_id w = sum_amounts (pos 0) (select (counts order_id) w.tables.refunds)

-- How PostgreSQL stores an amount of `x` parts of the column's unit, of which a unit has `parts`.
unfoldable pub rounded : ℕ → ℕ → ℕ
rounded x parts = (2 * x + parts) / (2 * parts)

-- The amount of `x` parts, checked and as it is stored; that it exceeds what is left is
-- `totalAlreadyRefunded.plus(refundAmount).gt(capturedPaymentAmount)`, in exact numbers.
unfoldable pub checked_amount : ℤ → ℤ → ℕ → Result ℤ
unfolding rounded
checked_amount remaining x parts =
    if lte x (pos 0)
    then err refund_amount_not_positive
    else if ltb (surplus remaining * parts) (surplus x)
    then err refund_exceeds_remaining
    else ok (pos (rounded (surplus x) parts))

abbrev pub requested_amount : ℤ → Option RequestedAmount → Result ℤ
requested_amount remaining none = checked_amount remaining remaining 1
requested_amount remaining (some (decimal x places)) = checked_amount remaining x (10 ^ places)
requested_amount remaining (some infinite) = err refund_exceeds_remaining
requested_amount remaining (some malformed) = err malformed_decimal

-- The amount to refund, checked against what is left of the captured amount.
unfoldable pub refundable : ℤ → ℤ → Option RequestedAmount → Result ℤ
unfolding checked_amount
refundable captured already requested =
    let remaining = captured -ℤ already in
    let amount = requested_amount remaining requested in
    if lte remaining (pos 0) then err fully_refunded else amount

unfoldable pub insert_new : ℕ → RefundInput → ℕ → Order → Payment → Action CreatedRefund
unfolding refundable audit_log
insert_new user_id input key order payment = do
  already ← gets (total_refunded order.id)
  amount ← lift (refundable payment.amount already input.amount)
  validate_transition order.status OrderStatus.refund_pending
  update_order order.id (λ o. record o { status = OrderStatus.refund_pending })
  id ← fresh
  refund ← insert_refund (record {
    id = id;
    order_id = order.id;
    payment_id = some payment.id;
    user_id = order.user_id;
    amount = amount;
    currency = payment.currency;
    reason = input.reason;
    status = RefundStatus.pending;
    idempotency_key = key;
    provider_refund_id = none;
    failure_reason = none;
    ambiguous = false;
  })
  audit_log (Actor.user user_id) AuditAction.refund_created (some refund.id)
  pure (record { refund = refund; is_duplicate = false })

unfoldable pub insert_unless_known :
    ℕ → Bool → RefundInput → ℕ → Order → Payment → Option Refund → Action CreatedRefund
unfolding insert_new
insert_unless_known user_id is_admin input key order payment none =
    insert_new user_id input key order payment
insert_unless_known user_id is_admin input key order payment (some existing) = do
  raise_if (not is_admin && not (existing.user_id == user_id)) idempotency_conflict
  pure (record { refund = existing; is_duplicate = true })

-- What the checks on the order and its settlements throw.
unfoldable pub order_refusal : ℕ → Bool → Order → List Settlement → Option Error
order_refusal user_id is_admin order settlements =
    if not is_admin && not (order.user_id == user_id)
    then some order_forbidden
    else if not is_admin && not (includes allowed_user_states order.status)
    then some refund_state_forbidden
    else if order.status === OrderStatus.completed
        || order.status === OrderStatus.settlement_completed
    then some order_already_settled
    else if is_some (find is_active_settlement settlements)
    then some settlement_active
    else none

-- `made_key` is the key REF_KEY_<order>_<time> of a request without one; `header` is the request's
-- idempotency header.
unfoldable pub create_refund_in_tx : ℕ → ℕ → RefundInput → Bool → Option ℕ → Action CreatedRefund
unfolding order_refusal insert_unless_known
create_refund_in_tx made_key user_id input is_admin header = do
  found ← find_order (λ o. o.id == input.order_id)
  order ← or_raise found order_not_found
  payments ← gets (λ w. select (λ p. p.order_id == order.id) w.tables.payments)
  settlements ← gets (λ w. select (λ s. s.order_id == order.id) w.tables.settlements)
  throw_any (order_refusal user_id is_admin order settlements)
  payment ← or_raise (locate_payment input.payment_id payments) no_eligible_payment
  let key = or_else (first_choice input.idempotency_key header) made_key
  existing ← find_refund (λ r. r.idempotency_key == key)
  insert_unless_known user_id is_admin input key order payment existing

unfoldable pub create_refund : ℕ → ℕ → RefundInput → Bool → Option ℕ → Action CreatedRefund
unfolding create_refund_in_tx
create_refund made_key user_id input is_admin header =
    transaction (create_refund_in_tx made_key user_id input is_admin header)
