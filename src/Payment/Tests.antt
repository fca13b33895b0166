-- ===== src/Payment/Tests.antt =====
-- Instances of the theorems on payments: a payment that arrives after its order has expired.
use luminarail_backend.Base.{◌≡◌, refl, false, none, some, [], ◌∷◌, find, ◌==◌}
use luminarail_backend.Int.{pos}
use luminarail_backend.Store.Status.{
  OrderStatus, PaymentStatus, ReservationStatus, OrderType, Currency, is_blank,
}
use luminarail_backend.Store.Rows.{World, Order, Reservation}
use luminarail_backend.Store.Sample.{empty_world, sample_config}
use luminarail_backend.Machine.Order.{can_transition}
use luminarail_backend.Settlement.Service.{lacks_wallet}
use luminarail_backend.Payment.Verify.{apply_outcome}
use luminarail_backend.Payment.Outcome.{late_payment_advances}

abbrev order : Order
order = record {
  id = 9;
  user_id = 4;
  quote_id = 2;
  idempotency_key = none;
  type = OrderType.on_ramp;
  status = OrderStatus.expired;
  source_currency = Currency.ngn;
  destination_asset = Currency.usdc;
  source_amount = pos 6000000;
  destination_amount = pos 4000000000;
  wallet_address = some (71 ∷ []);
  created_at = 1000;
}

abbrev reservation : Reservation
reservation = record {
  id = 1;
  pool_id = 0;
  order_id = 9;
  amount = pos 4000000000;
  status = ReservationStatus.expired_released;
  expires_at = 901000;
}

abbrev expired : World
expired = record empty_world {
  tables = record (empty_world.tables) { orders = order ∷ []; reservations = reservation ∷ [] };
}

has_wallet : lacks_wallet order.wallet_address ≡ false
unfolding is_blank
has_wallet = refl

late_payment_advances_example :
    let after = (apply_outcome sample_config 9 PaymentStatus.succeeded expired).1 in
    (find (λ x. x.id == 9) after.tables.orders
      ≡ some (record order { status = OrderStatus.settlement_pending }))
    × (after.tables.reservations ≡ expired.tables.reservations)
    × (can_transition OrderStatus.expired OrderStatus.settlement_pending ≡ false)
late_payment_advances_example =
    late_payment_advances sample_config expired order reservation refl refl has_wallet refl refl
