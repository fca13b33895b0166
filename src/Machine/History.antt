-- ===== src/Machine/History.antt =====
-- What the four transition tables rule out, over every history of allowed changes.
use luminarail_backend.Base.{
  ℕ, ◌≡◌, refl, inl, inr, Bool-cases, Bool, true, false, ◌||◌, arith, ◌===◌, includes,
}
use luminarail_backend.Store.Status.{
  OrderStatus, PaymentStatus, SettlementStatus, RefundStatus, order_status_enum,
  payment_status_enum, settlement_status_enum, refund_status_enum,
}
use luminarail_backend.Machine.Walk.{Walk, Walk-keeps, visits, visits-or-keeps}
use luminarail_backend.Machine.Order
use luminarail_backend.Machine.Payment
use luminarail_backend.Machine.Settlement
use luminarail_backend.Machine.Refund

-- The statuses of an order whose money goes back, and of one that is paid out.
abbrev pub is_refunding : OrderStatus → Bool
is_refunding s =
    s === OrderStatus.refund_pending
    || s === OrderStatus.refunded
    || s === OrderStatus.refund_failed

abbrev pub is_paid_out : OrderStatus → Bool
is_paid_out s = s === OrderStatus.settlement_completed || s === OrderStatus.completed

refunding_step :
    (s t : OrderStatus)
    → Order.can_transition s t ≡ true
    → is_refunding s ≡ true
    → is_refunding t ≡ true
unfolding Order.can_transition
refunding_step s t a h = ground arith

paid_out_step :
    (s t : OrderStatus)
    → Order.can_transition s t ≡ true
    → is_paid_out s ≡ true
    → is_paid_out t ≡ true
unfolding Order.can_transition
paid_out_step s t a h = ground arith

exclusive : (s : OrderStatus) → is_refunding s ≡ true → is_paid_out s ≡ false
exclusive s h = ground arith

-- Over every history of changes that the order machine allows, an order that has entered the refund
-- statuses stays in them, so it is never paid out afterwards.
pub refunding_final :
    {s t : OrderStatus}
    → Walk Order.can_transition s t
    → is_refunding s ≡ true
    → (is_refunding t ≡ true) × (is_paid_out t ≡ false)
refunding_final {t = t} p h =
    let k = Walk-keeps _ (λ s. is_refunding s ≡ true) refunding_step p h in (k, exclusive t k)

-- Over every history of changes that the order machine allows, an order that has been paid out stays
-- paid out, so it is never refunded afterwards.
pub paid_out_final :
    {s t : OrderStatus}
    → Walk Order.can_transition s t
    → is_paid_out s ≡ true
    → (is_paid_out t ≡ true) × (is_refunding t ≡ false)
paid_out_final {t = t} p h =
    let k : is_paid_out t ≡ true = Walk-keeps _ (λ s. is_paid_out s ≡ true) paid_out_step p h in
    (
      k,
      elim (Bool-cases (is_refunding t)) [
        | inl r ↦ absurd (clash t r k)
        | inr no_refund ↦ no_refund
      ],
    )
  where
    clash : (t : OrderStatus) → is_refunding t ≡ true → is_paid_out t ≡ true → ⊥
    clash t r k = ground (arith, exclusive t)

-- The tests that `canTransition` of the order machine makes before it reads its table change nothing:
-- it answers as the table does, for every pair of statuses.
pub order_table :
    (s t : OrderStatus) → Order.can_transition s t ≡ includes (Order.allowed_transitions s) t
unfolding Order.can_transition
order_table s t = ground arith

-- How far a payment has come.
abbrev rank : PaymentStatus → ℕ
rank PaymentStatus.created = 0
rank PaymentStatus.pending = 1
rank PaymentStatus.processing = 2
rank PaymentStatus.succeeded = 3
rank _ = 4

abbrev early : SettlementStatus → Bool
early s = s === SettlementStatus.pending || s === SettlementStatus.failed

early_step :
    (s t : SettlementStatus)
    → Settlement.can_transition s t ≡ true
    → (t === SettlementStatus.submitting) ≡ false
    → early s ≡ true
    → early t ≡ true
unfolding Settlement.can_transition
early_step s t a x h = ground arith

-- A settlement that begins as PENDING is COMPLETED only by a history that comes through SUBMITTING,
-- where the worker's claim counts the attempt.
pub completed_visits_submitting :
    (p : Walk Settlement.can_transition SettlementStatus.pending SettlementStatus.completed)
    → visits SettlementStatus.submitting p ≡ true
completed_visits_submitting p = elim (Bool-cases (visits SettlementStatus.submitting p)) [
  | inl seen ↦ seen
  | inr unseen ↦
      let k : early SettlementStatus.completed ≡ true =
        visits-or-keeps SettlementStatus.submitting (λ s. early s ≡ true) early_step p refl
          unseen in
      cc
]

settlement_stays :
    (s t : SettlementStatus)
    → (s === SettlementStatus.completed || s === SettlementStatus.failed) ≡ true
    → Settlement.can_transition s t ≡ true
    → t ≡ s
unfolding Settlement.can_transition
settlement_stays s t h a = ground arith

-- A settlement that is COMPLETED or FAILED never changes its status again.
pub settlement_final :
    {s t : SettlementStatus}
    → Walk Settlement.can_transition s t
    → (s === SettlementStatus.completed || s === SettlementStatus.failed) ≡ true
    → t ≡ s
settlement_final {s} p h =
    Walk-keeps _ (λ t. t ≡ s) (λ u t a e. rw e at (settlement_stays u t (rw e h) a)) p refl

refund_stays :
    (s t : RefundStatus) → Refund.is_terminal s ≡ true → Refund.can_transition s t ≡ true → t ≡ s
unfolding Refund.can_transition
refund_stays s t h a = ground arith

-- A refund that `isTerminal` calls terminal never changes its status again, by any history.
pub refund_final :
    {s t : RefundStatus} → Walk Refund.can_transition s t → Refund.is_terminal s ≡ true → t ≡ s
refund_final {s} p h =
    Walk-keeps _ (λ t. t ≡ s) (λ u t a e. rw e at (refund_stays u t (rw e h) a)) p refl
