-- ===== src/Workers/Reconcile/Stranded.antt =====
-- What becomes of an order whose payment the daemon has confirmed.
use luminarail_backend.Base.{
  ℕ, false, ◌≡◌, refl, ap, sym, ◌∙◌, Option, some, List, find, update, find-update_same,
  find-passes, ==-eq, ◌==◌, arith,
}
use luminarail_backend.Int.{ℤ}
use luminarail_backend.Store.Status.{OrderStatus}
use luminarail_backend.Store.Rows.{World, Order, Payment, Settlement}
use luminarail_backend.Store.Config.{Config}
use luminarail_backend.Store.Action.{ok}
use luminarail_backend.Liquidity.Service.{confirm_reservation_in_tx, confirm_found}
use luminarail_backend.Workers.Reconcile.Payment.{
  PaymentResult, Verified, confirm_order, mark_payment, ensure_settlement,
  reconcile_single_payment_order, confirmed_and_settled,
}
use luminarail_backend.Workers.Reconcile.Paid.{confirmed_lem}
use luminarail_backend.Workers.Settle.Sweep.{is_eligible}

abbrev confirmed : Order → Order
confirmed o = record o { status = OrderStatus.payment_confirmed }

confirm_order-orders :
    (cfg : Config) (now : ℕ) (round4 : ℤ → ℤ) (o : Order) (p : Option Payment) (reference : ℕ)
    (v : Verified) (w : World) {r : PaymentResult}
    → (confirm_order cfg now round4 o p reference v w).0 ≡ ok r
    → (confirm_order cfg now round4 o p reference v w).1.tables.orders
      ≡ update (λ x. x.id == o.id) confirmed w.tables.orders
unfolding confirm_order mark_payment confirm_reservation_in_tx confirm_found ensure_settlement
confirm_order-orders cfg now round4 o p reference v w h = ground arith

never_eligible : (ss : List Settlement) (o : Order) → is_eligible ss (confirmed o) ≡ false
never_eligible ss o = refl

-- When the reconciliation of a payment reports that it has confirmed an order, the order is found
-- PAYMENT_CONFIRMED afterwards, and in that status the settlement worker's sweep does not select it,
-- whatever settlements there are: the settlement that the daemon has made waits for nobody.
pub confirmed_unselected :
    (cfg : Config) (now : ℕ) (round4 : ℤ → ℤ) (verify : ℕ → Option Verified) (order_id : ℕ)
    (w : World) (r : PaymentResult)
    → (reconcile_single_payment_order cfg now round4 verify order_id w).0 ≡ ok r
    → r.action ≡ confirmed_and_settled
    → let after = (reconcile_single_payment_order cfg now round4 verify order_id w).1 in
      (o : Order) × (find (λ x. x.id == order_id) after.tables.orders ≡ some o)
      × (o.status ≡ OrderStatus.payment_confirmed)
      × (is_eligible after.tables.settlements o ≡ false)
confirmed_unselected cfg now round4 verify order_id w r h done =
    let (o, v, k, paid, whole) = confirmed_lem cfg now round4 verify order_id w r h done in
    let payment = find (λ (p : Payment). p.order_id == o.id) w.tables.payments in
    let named : o.id ≡ order_id =
      ==-eq o.id order_id
        (find-passes (λ (x : Order). x.id == order_id) w.tables.orders paid.order_read) in
    let after = (reconcile_single_payment_order cfg now round4 verify order_id w).1 in
    let orders : after.tables.orders ≡ update (λ x. x.id == order_id) confirmed w.tables.orders =
      ap (λ e. e.1.tables.orders) whole
      ∙ confirm_order-orders cfg now round4 o payment k v w (ap (λ e. e.0) (sym whole) ∙ h)
      ∙ ap (λ i. update (λ x. x.id == i) confirmed w.tables.orders) named in
    (
      confirmed o,
      ap (find (λ x. x.id == order_id)) orders
          ∙ find-update_same (λ (x : Order). x.id) order_id confirmed w.tables.orders o
              paid.order_read refl,
      refl,
      never_eligible after.tables.settlements o,
    )
