-- ===== src/Refund/Uncaptured.antt =====
-- A refund of a payment that was never captured.
use luminarail_backend.Base.{
  ℕ, ◌≡◌, refl, ap, ◌∙◌, true, false, none, some, [], ◌∷◌, find, select, ◌==◌, arith,
}
use luminarail_backend.Int.{ℤ, pos, ◌-ℤ◌, ◌≤ℤ◌}
use luminarail_backend.Store.Status.{OrderStatus, PaymentStatus, RefundStatus}
use luminarail_backend.Store.Rows.{World, Order, Payment, Refund}
use luminarail_backend.Store.Action.{ok, audit_log, transaction-commits}
use luminarail_backend.Machine.Order.{can_transition}
use luminarail_backend.Refund.Bound.{reaches}
use luminarail_backend.Refund.Create.{
  RefundInput, CreatedRefund, counts, total_refunded, locate_payment, sum_amounts, refundable,
  checked_amount, rounded, insert_new, order_refusal, create_refund_in_tx, create_refund,
}

all_of_it : (x : ℤ) → pos 1 ≤ℤ x → refundable x (pos 0) none ≡ ok x
unfolding refundable checked_amount rounded ◌-ℤ◌
all_of_it x large = ground arith

failed_is_allowed :
    (user_id : ℕ) (o : Order)
    → o.user_id ≡ user_id
    → o.status ≡ OrderStatus.failed
    → order_refusal user_id false o [] ≡ none
unfolding order_refusal
failed_is_allowed user_id o owner failed = ground arith

falls_back : (p : Payment) → p.status ≡ PaymentStatus.failed → locate_payment none (p ∷ []) ≡ some p
unfolding locate_payment
falls_back p failed = ground arith

failed_to_pending :
    (o : Order)
    → o.status ≡ OrderStatus.failed
    → can_transition o.status OrderStatus.refund_pending ≡ true
unfolding can_transition
failed_to_pending o failed = rw failed refl

-- The refund of all of `p`.
abbrev whole_refund : ℕ → ℕ → World → Order → Payment → Refund
whole_refund key reason w o p = record {
  id = w.next_id;
  order_id = o.id;
  payment_id = some p.id;
  user_id = o.user_id;
  amount = p.amount;
  currency = p.currency;
  reason = reason;
  status = RefundStatus.pending;
  idempotency_key = key;
  provider_refund_id = none;
  failure_reason = none;
  ambiguous = false;
}

amount_left :
    (w : World) (o : Order) (p : Payment)
    → select (counts o.id) w.tables.refunds ≡ []
    → pos 1 ≤ℤ p.amount
    → refundable p.amount (total_refunded o.id w) none ≡ ok p.amount
unfolding sum_amounts
amount_left w o p unrefunded large = rw unrefunded (all_of_it p.amount large)

inserts_whole :
    (key user_id reason : ℕ) (w : World) (o : Order) (p : Payment)
    → refundable p.amount (total_refunded o.id w) none ≡ ok p.amount
    → can_transition o.status OrderStatus.refund_pending ≡ true
    → find (λ x. x.id == o.id) w.tables.orders ≡ some o
    → (insert_new user_id
        (record {
          order_id = o.id;
          payment_id = none;
          amount = none;
          reason = reason;
          idempotency_key = none;
        })
        key
        o
        p
        w).0
      ≡ ok (record { refund = whole_refund key reason w o p; is_duplicate = false })
unfolding insert_new audit_log
inserts_whole key user_id reason w o p amount next found =
    rw amount (rw next (rw found (rw found refl)))

-- A user whose order is FAILED because its only payment FAILED, so that no money was captured, asks
-- for a refund and names neither a payment nor an amount: with no refund of the order and no
-- settlement yet, and a fresh key, a refund of the failed payment's whole amount is created.
pub failed_payment_refunded :
    (key user_id reason : ℕ) (w : World) (o : Order) (p : Payment)
    → find (λ x. x.id == o.id) w.tables.orders ≡ some o
    → o.user_id ≡ user_id
    → o.status ≡ OrderStatus.failed
    → select (λ x. x.order_id == o.id) w.tables.payments ≡ p ∷ []
    → p.status ≡ PaymentStatus.failed
    → pos 1 ≤ℤ p.amount
    → select (λ s. s.order_id == o.id) w.tables.settlements ≡ []
    → select (counts o.id) w.tables.refunds ≡ []
    → find (λ r. r.idempotency_key == key) w.tables.refunds ≡ none
    → (c : CreatedRefund) × ((create_refund key user_id
          (record {
            order_id = o.id;
            payment_id = none;
            amount = none;
            reason = reason;
            idempotency_key = none;
          })
          false
          none
          w).0
        ≡ ok c)
      × (c.is_duplicate ≡ false)
      × (c.refund.payment_id ≡ some p.id)
      × (c.refund.amount ≡ p.amount)
unfolding create_refund
failed_payment_refunded key user_id reason w o p found owner failed paid uncaptured large unsettled
      unrefunded fresh_key =
    let input : RefundInput = record {
      order_id = o.id;
      payment_id = none;
      amount = none;
      reason = reason;
      idempotency_key = none;
    } in
    let there =
      reaches key user_id input false none w o p found
        (rw unsettled (failed_is_allowed user_id o owner failed))
        (rw paid (falls_back p uncaptured)) fresh_key in
    let amount = amount_left w o p unrefunded large in
    let made = inserts_whole key user_id reason w o p amount (failed_to_pending o failed) found in
    (
      record { refund = whole_refund key reason w o p; is_duplicate = false },
      transaction-commits (create_refund_in_tx key user_id input false none) w
          (record { refund = whole_refund key reason w o p; is_duplicate = false })
          (ap (λ r. r.0) there ∙ made),
      refl,
      refl,
      refl,
    )
