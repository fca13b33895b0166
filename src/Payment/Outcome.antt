-- ===== src/Payment/Outcome.antt =====
-- What a verified payment does to the reservation and the order.
use luminarail_backend.Base.{ℕ, false, ◌≡◌, refl, ap, some, find, ◌==◌, arith, find-update_same}
use luminarail_backend.Store.Status.{
  OrderStatus, PaymentStatus, payment_status_enum, ReservationStatus, reservation_status_enum,
}
use luminarail_backend.Store.Rows.{World, Order, Reservation}
use luminarail_backend.Store.Config.{Config}
use luminarail_backend.Store.Action.{ok, ◌>>=◌, ◌>>◌}
use luminarail_backend.Machine.Order.{can_transition}
use luminarail_backend.Liquidity.Service.{
  confirm_found, confirm_reservation_in_tx, confirm_reservation,
}
use luminarail_backend.Settlement.Service.{lacks_wallet}
use luminarail_backend.Payment.Verify.{advance_order, apply_outcome}

-- The confirmation of a reservation that has expired changes nothing.
expired_unconfirmed :
    (order_id : ℕ) (w : World) (r : Reservation)
    → find (λ x. x.order_id == order_id) w.tables.reservations ≡ some r
    → r.status ≡ ReservationStatus.expired_released
    → confirm_reservation order_id w ≡ (ok (some r), w)
unfolding confirm_reservation confirm_reservation_in_tx confirm_found
expired_unconfirmed order_id w r found expired = rw found (rw expired refl)

advanced :
    (w : World) (o : Order)
    → find (λ x. x.id == o.id) w.tables.orders ≡ some o
    → o.status ≡ OrderStatus.expired
    → lacks_wallet o.wallet_address ≡ false
    → (find (λ x. x.id == o.id) (advance_order (some o) w).1.tables.orders
        ≡ some (record o { status = OrderStatus.settlement_pending }))
      × ((advance_order (some o) w).1.tables.reservations ≡ w.tables.reservations)
unfolding advance_order
advanced w o found expired wallet =
    let row =
      find-update_same (λ (x : Order). x.id) o.id
        (λ x. record x { status = OrderStatus.settlement_pending }) w.tables.orders o found refl in
    (ground arith, ground arith)

-- A payment that succeeds after its order and its reservation have expired: an order that has a wallet
-- becomes SETTLEMENT_PENDING, which its state machine forbids, and no reservation is changed, so that
-- it waits for its payout with no liquidity held for it.
pub late_payment_advances :
    (cfg : Config) (w : World) (o : Order) (r : Reservation)
    → find (λ x. x.id == o.id) w.tables.orders ≡ some o
    → o.status ≡ OrderStatus.expired
    → lacks_wallet o.wallet_address ≡ false
    → find (λ x. x.order_id == o.id) w.tables.reservations ≡ some r
    → r.status ≡ ReservationStatus.expired_released
    → let after = (apply_outcome cfg o.id PaymentStatus.succeeded w).1 in
      (find (λ x. x.id == o.id) after.tables.orders
        ≡ some (record o { status = OrderStatus.settlement_pending }))
      × (after.tables.reservations ≡ w.tables.reservations)
      × (can_transition OrderStatus.expired OrderStatus.settlement_pending ≡ false)
unfolding apply_outcome can_transition
late_payment_advances cfg w o r found expired wallet held released =
    let kept = expired_unconfirmed o.id w r held released in
    let same : apply_outcome cfg o.id PaymentStatus.succeeded w ≡ advance_order (some o) w =
      rw (◌>>=◌, ◌>>◌, kept)
        (rw (◌>>=◌, ◌>>◌, kept, found) (ap (λ v. advance_order (some o) v) (ap (λ x. x.1) kept))) in
    let (row, reservations) = advanced w o found expired wallet in
    (rw same row, rw same reservations, refl)
