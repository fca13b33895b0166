-- ===== src/Settlement/Creation.antt =====
-- What a settlement's creation demands, and that an order has one settlement.
use luminarail_backend.Base.{
  ℕ, ◌≡◌, false, Option, none, some, find, ◌==◌, arith, Option-cases, inl, inr,
}
use luminarail_backend.Int.{ℤ}
use luminarail_backend.Store.Status.{OrderStatus, order_status_enum, SettlementStatus}
use luminarail_backend.Store.Rows.{World, Order, Settlement, Actor}
use luminarail_backend.Store.Config.{Config}
use luminarail_backend.Store.Action.{ok}
use luminarail_backend.Settlement.Service.{
  Created, is_active_refund, lacks_wallet, create_settlement_for_order,
}

-- What holds when a new settlement `s` has been made for the order `o` that was read.
pub record IsGuarded (round4 : ℤ → ℤ) (order_id : ℕ) (w : World) (o : Order) (s : Settlement)
    : Type 0 where
  pub order_read : find (λ x. x.id == order_id) w.tables.orders ≡ some o
  pub order_pending : o.status ≡ OrderStatus.settlement_pending
  pub no_refund : find (is_active_refund o.id) w.tables.refunds ≡ none
  pub has_wallet : lacks_wallet o.wallet_address ≡ false
  pub begins_pending : s.status ≡ SettlementStatus.pending
  pub same_destination : s.destination ≡ o.wallet_address
  pub rounded_amount : s.amount ≡ round4 o.destination_amount
  pub for_order : s.order_id ≡ o.id

module _ (cfg : Config) (now : ℕ) (round4 : ℤ → ℤ) (between : World → World) (order_id : ℕ)
    (actor : Option Actor) (w : World) (c : Created)
    (made : (create_settlement_for_order cfg now round4 between order_id actor w).0 ≡ ok c) where
  order_of : (o : Order) × (find (λ x. x.id == order_id) w.tables.orders ≡ some o)
  unfolding create_settlement_for_order
  order_of = elim (Option-cases (find (λ x. x.id == order_id) w.tables.orders)) [
    | inl missing ↦ absurd (ground arith)
    | inr found ↦ found
  ]

  module _ (o : Order) (found : find (λ x. x.id == order_id) w.tables.orders ≡ some o)
      (new : c.is_duplicate ≡ false) where
    guarded_pending : o.status ≡ OrderStatus.settlement_pending
    unfolding create_settlement_for_order
    guarded_pending = ground arith

    guarded_refund : find (is_active_refund o.id) w.tables.refunds ≡ none
    unfolding create_settlement_for_order
    guarded_refund = ground arith

    guarded_wallet : lacks_wallet o.wallet_address ≡ false
    unfolding create_settlement_for_order
    guarded_wallet = ground arith

    guarded_row :
        (c.settlement.status ≡ SettlementStatus.pending)
        × (c.settlement.destination ≡ o.wallet_address)
        × (c.settlement.amount ≡ round4 o.destination_amount)
        × (c.settlement.order_id ≡ o.id)
    unfolding create_settlement_for_order
    guarded_row = ground arith

-- A settlement is created only for an order that the service reads as SETTLEMENT_PENDING, with a
-- destination wallet that is not blank and without a PENDING, PROCESSING or SUCCEEDED refund; the new
-- settlement is PENDING, is for that order, goes to its wallet and has its amount, rounded to the
-- column's four decimals.
pub creation-IsGuarded :
    (cfg : Config) (now : ℕ) (round4 : ℤ → ℤ) (between : World → World) (order_id : ℕ)
    (actor : Option Actor) (w : World) (c : Created)
    → (create_settlement_for_order cfg now round4 between order_id actor w).0 ≡ ok c
    → c.is_duplicate ≡ false
    → (o : Order) × IsGuarded round4 order_id w o c.settlement
creation-IsGuarded cfg now round4 between order_id actor w c made new =
    let (o, found) = order_of cfg now round4 between order_id actor w c made in
    let (status, destination, amount, for_it) =
      guarded_row cfg now round4 between order_id actor w c made o found new in
    (
      o,
      record {
        order_read = found;
        order_pending = guarded_pending cfg now round4 between order_id actor w c made o found new;
        no_refund = guarded_refund cfg now round4 between order_id actor w c made o found new;
        has_wallet = guarded_wallet cfg now round4 between order_id actor w c made o found new;
        begins_pending = status;
        same_destination = destination;
        rounded_amount = amount;
        for_order = for_it;
      },
    )
