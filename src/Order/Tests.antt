-- ===== src/Order/Tests.antt =====
-- Instances of the theorems on orders: a paid order with a refund under way gets a wallet.
use luminarail_backend.Base.{◌≡◌, refl, false, none, some, [], ◌∷◌}
use luminarail_backend.Int.{pos}
use luminarail_backend.Store.Status.{OrderStatus, PaymentStatus, OrderType, Currency}
use luminarail_backend.Store.Rows.{World, Order, Payment}
use luminarail_backend.Store.Action.{ok, audit_log}
use luminarail_backend.Store.Sample.{empty_world}
use luminarail_backend.Machine.Order.{can_transition}
use luminarail_backend.Order.Service.{get_order_by_id, update_order_wallet}
use luminarail_backend.Order.Changes.{IsAttached, wallet-IsAttached, wallet_revives_refund}

abbrev order : Order
order = record {
  id = 9;
  user_id = 4;
  quote_id = 2;
  idempotency_key = none;
  type = OrderType.on_ramp;
  status = OrderStatus.refund_pending;
  source_currency = Currency.ngn;
  destination_asset = Currency.usdc;
  source_amount = pos 6000000;
  destination_amount = pos 4000000;
  wallet_address = none;
  created_at = 1000;
}

abbrev payment : Payment
payment = record {
  id = 5;
  order_id = 9;
  user_id = 4;
  provider = 0;
  provider_payment_id = none;
  amount = pos 6000000;
  platform_fee = pos 60000;
  net_amount = pos 5940000;
  currency = Currency.ngn;
  status = PaymentStatus.succeeded;
  reference = 31;
  idempotency_key = none;
  created_at = 1100;
}

abbrev paid : World
paid = record empty_world {
  tables = record (empty_world.tables) { orders = order ∷ []; payments = payment ∷ [] };
}

abbrev revived_order : Order
revived_order = record order {
  wallet_address = some (71 ∷ []);
  status = OrderStatus.settlement_pending;
}

attaches : (update_order_wallet 9 4 (71 ∷ []) false paid).0 ≡ ok revived_order
unfolding update_order_wallet get_order_by_id audit_log
attaches = refl

wallet-IsAttached_example :
    (o : Order) × IsAttached 9 4
      (71 ∷ [])
      false
      paid
      (update_order_wallet 9 4 (71 ∷ []) false paid).1
      o
      revived_order
wallet-IsAttached_example = wallet-IsAttached 9 4 (71 ∷ []) false paid revived_order attaches

wallet_revives_refund_example :
    ((update_order_wallet 9 4 (71 ∷ []) false paid).0 ≡ ok revived_order)
    × (can_transition OrderStatus.refund_pending OrderStatus.settlement_pending ≡ false)
wallet_revives_refund_example = wallet_revives_refund 9 (71 ∷ []) paid order refl refl refl
