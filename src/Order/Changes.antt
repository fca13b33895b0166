-- ===== src/Order/Changes.antt =====
-- `updateOrderWallet` of modules/orders/orders.service.ts: what it attaches, and the status it writes.
use luminarail_backend.Base.{
  ℕ, Bool, true, false, ◌&&◌, ◌||◌, ◌≡◌, refl, ◌⊎◌, inl, inr, some, find, any, update, ◌==◌, ◌===◌,
  arith, Option-cases, find-update_same,
}
use luminarail_backend.Store.Status.{
  OrderStatus, order_status_enum, PaymentStatus, payment_status_enum, Text,
}
use luminarail_backend.Store.Rows.{World, Order}
use luminarail_backend.Store.Action.{ok, audit_log}
use luminarail_backend.Machine.Order.{can_transition}
use luminarail_backend.Order.Service.{get_order_by_id, wallet_status, update_order_wallet}

-- What the wallet's attachment does to an order.
pub record IsAttached (order_id user_id : ℕ) (address : Text) (is_admin : Bool) (w after : World)
    (o o' : Order) : Type 0 where
  pub order_read : find (λ x. x.id == order_id) w.tables.orders ≡ some o
  pub is_owner : is_admin ≡ false → o.user_id ≡ user_id
  pub address_written : o'.wallet_address ≡ some address
  pub status_written :
      (o'.status ≡ o.status)
      ⊎ (o'.status ≡ OrderStatus.settlement_pending)
        × ((o.status ≡ OrderStatus.payment_confirmed)
            ⊎ (any
                  (λ p. p.order_id == o.id && p.status === PaymentStatus.succeeded)
                  w.tables.payments
                ≡ true))
  pub settled_kept :
      (o.status === OrderStatus.completed || o.status === OrderStatus.settlement_completed) ≡ true
      → o'.status ≡ o.status
  pub row_written : find (λ x. x.id == order_id) after.tables.orders ≡ some o'

module _ (order_id user_id : ℕ) (address : Text) (is_admin : Bool) (w : World) (o' : Order)
    (done : (update_order_wallet order_id user_id address is_admin w).0 ≡ ok o') where
  order_of : (o : Order) × (find (λ x. x.id == order_id) w.tables.orders ≡ some o)
  unfolding update_order_wallet get_order_by_id
  order_of = elim (Option-cases (find (λ x. x.id == order_id) w.tables.orders)) [
    | inl missing ↦ absurd (ground arith)
    | inr found ↦ found
  ]

  module _ (o : Order) (found : find (λ x. x.id == order_id) w.tables.orders ≡ some o) where
    owner : is_admin ≡ false → o.user_id ≡ user_id
    unfolding update_order_wallet get_order_by_id
    owner regular = ground arith

    written : o' ≡ record o {
      wallet_address = some address;
      status =
          wallet_status o.status (
            any
              (λ p. p.order_id == o.id && p.status === PaymentStatus.succeeded)
              w.tables.payments);
    }
    unfolding update_order_wallet get_order_by_id
    written = ground arith

    rows :
        (update_order_wallet order_id user_id address is_admin w).1.tables.orders
        ≡ update
            (λ x. x.id == order_id)
            (λ x. record x {
              wallet_address = some address;
              status = wallet_status o.status (
                  any
                    (λ p. p.order_id == o.id && p.status === PaymentStatus.succeeded)
                    w.tables.payments);
            })
            w.tables.orders
    unfolding update_order_wallet get_order_by_id audit_log
    rows = ground arith

wallet_status_lem :
    (s : OrderStatus) (paid : Bool)
    → (wallet_status s paid ≡ s)
      ⊎ (wallet_status s paid ≡ OrderStatus.settlement_pending)
        × ((s ≡ OrderStatus.payment_confirmed) ⊎ (paid ≡ true))
wallet_status_lem s paid = ground arith

wallet_status-settled :
    (s : OrderStatus) (paid : Bool)
    → (s === OrderStatus.completed || s === OrderStatus.settlement_completed) ≡ true
    → wallet_status s paid ≡ s
wallet_status-settled s paid settled = rw settled refl

-- Attaching a wallet succeeds only for the order's owner or an administrator. It writes the address;
-- the status stays, or becomes SETTLEMENT_PENDING if the order was PAYMENT_CONFIRMED or has
-- a SUCCEEDED payment; the status of a settled order always stays.
pub wallet-IsAttached :
    (order_id user_id : ℕ) (address : Text) (is_admin : Bool) (w : World) (o' : Order)
    → (update_order_wallet order_id user_id address is_admin w).0 ≡ ok o'
    → (o : Order) × IsAttached order_id user_id address is_admin w
        (update_order_wallet order_id user_id address is_admin w).1
        o
        o'
wallet-IsAttached order_id user_id address is_admin w o' done =
    let (o, found) = order_of order_id user_id address is_admin w o' done in
    let change = written order_id user_id address is_admin w o' done o found in
    let paid =
      any (λ p. p.order_id == o.id && p.status === PaymentStatus.succeeded) w.tables.payments in
    (
      o,
      record {
        order_read = found;
        is_owner = owner order_id user_id address is_admin w o' done o found;
        address_written = rw change refl;
        status_written = rw change (wallet_status_lem o.status paid);
        settled_kept = λ settled. rw change (wallet_status-settled o.status paid settled);
        row_written = rw (rows order_id user_id address is_admin w o' done o found) (
            rw change
              (find-update_same (λ (x : Order). x.id) order_id _ w.tables.orders o found refl));
      },
    )

revived :
    (order_id : ℕ) (address : Text) (w : World) (o : Order)
    → find (λ x. x.id == order_id) w.tables.orders ≡ some o
    → o.status ≡ OrderStatus.refund_pending
    → any (λ p. p.order_id == o.id && p.status === PaymentStatus.succeeded) w.tables.payments ≡ true
    → (update_order_wallet order_id o.user_id address false w).0
      ≡ ok (record o { wallet_address = some address; status = OrderStatus.settlement_pending })
unfolding update_order_wallet get_order_by_id audit_log
revived order_id address w o found refunding paid = ground arith

-- An order that is REFUND_PENDING and has a SUCCEEDED payment goes back to SETTLEMENT_PENDING when its
-- owner attaches a wallet, although the order's state machine forbids that change.
pub wallet_revives_refund :
    (order_id : ℕ) (address : Text) (w : World) (o : Order)
    → find (λ x. x.id == order_id) w.tables.orders ≡ some o
    → o.status ≡ OrderStatus.refund_pending
    → any (λ p. p.order_id == o.id && p.status === PaymentStatus.succeeded) w.tables.payments ≡ true
    → ((update_order_wallet order_id o.user_id address false w).0
        ≡ ok (record o { wallet_address = some address; status = OrderStatus.settlement_pending }))
      × (can_transition o.status OrderStatus.settlement_pending ≡ false)
unfolding can_transition
wallet_revives_refund order_id address w o found refunding paid =
    (revived order_id address w o found refunding paid, rw refunding refl)
