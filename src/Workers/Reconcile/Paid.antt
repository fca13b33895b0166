-- ===== src/Workers/Reconcile/Paid.antt =====
-- What the reconciliation of a payment demands before it confirms an order.
use luminarail_backend.Base.{
  ℕ, true, false, ◌≡◌, refl, ap, sym, ◌∙◌, not, ◌&&◌, ◌||◌, Bool, Option, none, some, find, [], ◌∷◌,
  includes, ◌==◌, ◌===◌, Bool-cases, inl, inr, arith,
}
use luminarail_backend.Int.{ℤ}
use luminarail_backend.Store.Status.{
  OrderStatus, order_status_enum, PaymentStatus, payment_status_enum,
}
use luminarail_backend.Store.Rows.{World, Order, Payment, Refund}
use luminarail_backend.Store.Config.{Config}
use luminarail_backend.Store.Action.{Action, ok, ok_lem, transaction-ok, ◌>>=◌}
use luminarail_backend.Store.Table.{find_order}
use luminarail_backend.Workers.Reconcile.Payment.{
  ActionTaken, PaymentResult, Verified, blocks, was_released, is_ineligible, same_amount,
  same_currency, reference_of, fail_order, confirm_order, defer_order, apply_verification,
  reconcile_referenced, reconcile_order, reconcile_single_payment_order, confirmed_and_settled,
  marked_failed, deferred, skipped,
}

-- What the reconciliation has found out about the order `o` that it confirms.
pub record IsPaid (verify : ℕ → Option Verified) (order_id : ℕ) (w : World) (o : Order)
    (v : Verified) : Type 0 where
  pub order_read : find (λ x. x.id == order_id) w.tables.orders ≡ some o
  pub reconcilable :
      includes
        (OrderStatus.awaiting_payment ∷ OrderStatus.payment_detected ∷ OrderStatus.created ∷ [])
        o.status
      ≡ true
  pub no_refund : blocks (find (λ x. x.order_id == o.id) w.tables.refunds) ≡ false
  pub held : was_released (find (λ x. x.order_id == o.id) w.tables.reservations) ≡ false
  pub answered :
      (reference : ℕ) × (reference_of (find (λ p. p.order_id == o.id) w.tables.payments) o
        ≡ some reference)
      × (verify reference ≡ some v)
  pub succeeded : (v.status === PaymentStatus.succeeded) ≡ true
  pub amount_matches : same_amount v.amount o.source_amount ≡ true
  pub currency_matches : same_currency v.currency o.source_currency ≡ true

failed_action :
    (cfg : Config) (o : Order) (p : Option Payment) (reference : ℕ) (w : World) {r : PaymentResult}
    → (fail_order cfg o p reference w).0 ≡ ok r
    → r.action ≡ marked_failed
unfolding fail_order
failed_action cfg o p reference w h = ground arith

and_left : (a b : Bool) → (a && b) ≡ true → a ≡ true
and_left a b h = ground arith

and_right : (a b : Bool) → (a && b) ≡ true → b ≡ true
and_right a b h = ground arith

differ_lem : {a : ActionTaken} → a ≡ marked_failed → a ≡ confirmed_and_settled → ⊥
differ_lem h k = cc

deferred_lem : {a : ActionTaken} → deferred ≡ a → a ≡ confirmed_and_settled → ⊥
deferred_lem h k = cc

skipped_lem : {a : ActionTaken} → skipped ≡ a → a ≡ confirmed_and_settled → ⊥
skipped_lem h k = cc

verified_lem :
    (cfg : Config) (now : ℕ) (round4 : ℤ → ℤ) (o : Order) (p : Option Payment) (reference : ℕ)
    (answer : Option Verified) (w : World) {r : PaymentResult}
    → (apply_verification cfg now round4 o p reference answer w).0 ≡ ok r
    → r.action ≡ confirmed_and_settled
    → (v : Verified) × (answer ≡ some v)
      × ((v.status === PaymentStatus.succeeded) ≡ true)
      × (same_amount v.amount o.source_amount ≡ true)
      × (same_currency v.currency o.source_currency ≡ true)
      × (apply_verification cfg now round4 o p reference answer w
          ≡ confirm_order cfg now round4 o p reference v w)
unfolding apply_verification defer_order
verified_lem cfg now round4 o p reference none w h done = absurd (cc)
verified_lem cfg now round4 o p reference (some v) w h done =
    elim (Bool-cases (v.status === PaymentStatus.succeeded)) [
      | inl success ↦
          let matches =
            same_amount v.amount o.source_amount && same_currency v.currency o.source_currency in
          elim (Bool-cases matches) [
            | inl match ↦ (
              v,
              refl,
              success,
              and_left _ _ match,
              and_right _ _ match,
              rw (success, match) refl,
            )
            | inr differ ↦
                absurd
                  (differ_lem (failed_action cfg o p reference w (rw (success, differ) at h)) done)
          ]
      | inr other ↦ elim (Bool-cases (v.status === PaymentStatus.failed)) [
        | inl failure ↦
            absurd (differ_lem (failed_action cfg o p reference w (rw (other, failure) at h)) done)
        | inr waits ↦
            absurd (deferred_lem (ap (λ r. r.action) (ok_lem (rw (other, waits) at h))) done)
      ]
    ]

referenced_lem :
    (cfg : Config) (now : ℕ) (round4 : ℤ → ℤ) (verify : ℕ → Option Verified) (o : Order)
    (p : Option Payment) (refund : Option Refund) (reference : Option ℕ) (w : World)
    {r : PaymentResult}
    → (reconcile_referenced cfg now round4 verify o p refund reference w).0 ≡ ok r
    → r.action ≡ confirmed_and_settled
    → (k : ℕ) × (reference ≡ some k)
      × (is_ineligible o refund (find (λ x. x.order_id == o.id) w.tables.reservations) ≡ false)
      × ((apply_verification cfg now round4 o p k (verify k) w).0 ≡ ok r)
      × (reconcile_referenced cfg now round4 verify o p refund reference w
          ≡ apply_verification cfg now round4 o p k (verify k) w)
unfolding reconcile_referenced
referenced_lem cfg now round4 verify o p refund none w h done = absurd (cc)
referenced_lem cfg now round4 verify o p refund (some k) w h done =
    let held = find (λ x. x.order_id == o.id) w.tables.reservations in
    elim (Bool-cases (is_ineligible o refund held)) [
      | inl bad ↦ absurd (skipped_lem (ap (λ r. r.action) (ok_lem (rw bad at h))) done)
      | inr good ↦ (k, refl, good, rw good at h, rw good refl)
    ]

eligible_lem : (a b c : Bool) → (not a || b || c) ≡ false → (a ≡ true) × (b ≡ false) × (c ≡ false)
eligible_lem a b c h = (ground arith, ground arith, ground arith)

order_lem :
    (cfg : Config) (now : ℕ) (round4 : ℤ → ℤ) (verify : ℕ → Option Verified) (order_id : ℕ)
    (found : Option Order) (w : World) {r : PaymentResult}
    → found ≡ find (λ x. x.id == order_id) w.tables.orders
    → (reconcile_order cfg now round4 verify order_id found w).0 ≡ ok r
    → r.action ≡ confirmed_and_settled
    → (o : Order) × (v : Verified) × (k : ℕ) × IsPaid verify order_id w o v
      × (reconcile_order cfg now round4 verify order_id found w
          ≡ confirm_order cfg now round4 o (find (λ p. p.order_id == o.id) w.tables.payments) k v w)
unfolding reconcile_order
order_lem cfg now round4 verify order_id none w read h done = absurd (cc)
order_lem cfg now round4 verify order_id (some o) w read h done =
    let payment = find (λ p. p.order_id == o.id) w.tables.payments in
    let refund = find (λ x. x.order_id == o.id) w.tables.refunds in
    let (k, referenced, eligible, applied, reaches) =
      referenced_lem cfg now round4 verify o payment refund (reference_of payment o) w h done in
    let (v, answered, success, amount, currency, confirms) =
      verified_lem cfg now round4 o payment k (verify k) w applied done in
    let (waiting, unrefunded, kept) = eligible_lem _ _ _ eligible in
    (
      o,
      v,
      k,
      record {
        order_read = sym read;
        reconcilable = waiting;
        no_refund = unrefunded;
        held = kept;
        answered = (k, referenced, answered);
        succeeded = success;
        amount_matches = amount;
        currency_matches = currency;
      },
      reaches ∙ confirms,
    )

pub confirmed_lem :
    (cfg : Config) (now : ℕ) (round4 : ℤ → ℤ) (verify : ℕ → Option Verified) (order_id : ℕ)
    (w : World) (r : PaymentResult)
    → (reconcile_single_payment_order cfg now round4 verify order_id w).0 ≡ ok r
    → r.action ≡ confirmed_and_settled
    → (o : Order) × (v : Verified) × (k : ℕ) × IsPaid verify order_id w o v
      × (reconcile_single_payment_order cfg now round4 verify order_id w
          ≡ confirm_order cfg now round4 o (find (λ p. p.order_id == o.id) w.tables.payments) k v w)
unfolding reconcile_single_payment_order
confirmed_lem cfg now round4 verify order_id w r h done =
    let look : Action (Option Order) = find_order (λ o. o.id == order_id) in
    let committed =
      transaction-ok (look >>= reconcile_order cfg now round4 verify order_id) w r h in
    let (o, v, k, paid, whole) =
      order_lem cfg now round4 verify order_id (find (λ x. x.id == order_id) w.tables.orders) w refl
        (ap (λ e. e.0) (sym committed) ∙ h) done in
    (o, v, k, paid, committed ∙ whole)

-- When the reconciliation of a payment reports that it has confirmed an order, the order was awaiting
-- its payment, the first refund of it, if there is one, had neither succeeded nor was under way, its
-- reservation was not released, and the provider has answered for its reference that the payment succeeded, with the
-- order's amount and currency.
pub confirmed-IsPaid :
    (cfg : Config) (now : ℕ) (round4 : ℤ → ℤ) (verify : ℕ → Option Verified) (order_id : ℕ)
    (w : World) (r : PaymentResult)
    → (reconcile_single_payment_order cfg now round4 verify order_id w).0 ≡ ok r
    → r.action ≡ confirmed_and_settled
    → (o : Order) × (v : Verified) × IsPaid verify order_id w o v
confirmed-IsPaid cfg now round4 verify order_id w r h done =
    let (o, v, k, paid, whole) = confirmed_lem cfg now round4 verify order_id w r h done in
    (o, v, paid)
