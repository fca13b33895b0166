-- ===== src/Workers/Settle/Tests.antt =====
-- Instances of the theorems on the settlement worker.
use luminarail_backend.Base.{◌≡◌, refl, true, none, some, [], ◌∷◌, find, ◌==◌}
use luminarail_backend.Int.{pos}
use luminarail_backend.Store.Status.{
  OrderStatus, ReservationStatus, SettlementStatus, OrderType, Currency,
}
use luminarail_backend.Store.Rows.{World, Order, Pool, Reservation, Settlement}
use luminarail_backend.Store.Sample.{empty_world, sample_config}
use luminarail_backend.Store.Action.{ok}
use luminarail_backend.Stellar.Confirmation.{
  RpcAnswer, Confirmation, confirm_transaction, poll, decision, get_transaction_status,
}
use luminarail_backend.Workers.Settle.Flow.{
  Submission, Executor, live_executor, execute_settlement_flow,
}
use luminarail_backend.Workers.Settle.Once.{no_resubmission}
use luminarail_backend.Workers.Settle.Marked.{
  to_submitted, to_confirming, to_completed, order_completed,
}
use luminarail_backend.Workers.Settle.Completes.{IsReady, consumed, payout_completes}

abbrev order : Order
order = record {
  id = 9;
  user_id = 4;
  quote_id = 2;
  idempotency_key = none;
  type = OrderType.on_ramp;
  status = OrderStatus.settlement_pending;
  source_currency = Currency.ngn;
  destination_asset = Currency.usdc;
  source_amount = pos 6000000;
  destination_amount = pos 4000000000;
  wallet_address = some (71 ∷ []);
  created_at = 1000;
}

abbrev pool : Pool
pool = record {
  id = 1;
  asset = Currency.usdc;
  network = 0;
  total_balance = pos 100000000000;
  reserved_balance = pos 4000000000;
  available_balance = pos 96000000000;
  min_threshold = pos 10000000000;
}

abbrev reservation : Reservation
reservation = record {
  id = 2;
  pool_id = 1;
  order_id = 9;
  amount = pos 4000000000;
  status = ReservationStatus.confirmed;
  expires_at = 901000;
}

abbrev claimed : Settlement
claimed = record {
  id = 6;
  settlement_id = 42;
  order_id = 9;
  user_id = 4;
  status = SettlementStatus.submitting;
  asset = Currency.usdc;
  amount = pos 4000000000;
  source = 77;
  destination = some (71 ∷ []);
  stellar_transaction_hash = none;
  stellar_ledger = none;
  attempt_count = 1;
  last_error = none;
  submitted_at = none;
  confirmed_at = none;
  created_at = 2000;
}

abbrev world : World
world = record empty_world {
  tables = record (empty_world.tables) {
    pools = pool ∷ [];
    reservations = reservation ∷ [];
    orders = order ∷ [];
    settlements = claimed ∷ [];
  };
}

-- The network takes the transaction as 500, and every attempt finds it executed in ledger 33.
abbrev executor : Executor
executor = live_executor (λ s. Submission.submitted 500) (λ hash attempt. RpcAnswer.success 33)

accepts : executor.submit_settlement claimed ≡ Submission.submitted 500
unfolding live_executor
accepts = refl

confirms : executor.confirm_settlement 500 ≡ Confirmation.confirmed (some 33)
unfolding live_executor confirm_transaction poll decision get_transaction_status
confirms = refl

world-IsReady : IsReady claimed order reservation pool world
world-IsReady = record {
  stored = (refl, refl);
  claimed = refl;
  unsent = refl;
  order_row = refl;
  reserved = refl;
  reservation_row = refl;
  active = refl;
  pool_named = refl;
  pool_row = refl;
}

payout_completes_example :
    let end = execute_settlement_flow executor sample_config 3000 true claimed world in
    (end.0 ≡ ok SettlementStatus.completed)
    × (find (λ x. x.id == 6) end.1.tables.settlements
        ≡ some (to_completed 3000 33 (to_confirming (to_submitted 3000 500 claimed))))
    × (find (λ x. x.id == 9) end.1.tables.orders ≡ some (order_completed order))
    × (find (λ x. x.id == 2) end.1.tables.reservations ≡ some (consumed reservation))
payout_completes_example =
    payout_completes executor sample_config 3000 500 33 claimed order reservation pool world
      world-IsReady accepts confirms

abbrev sent : Settlement
sent = to_submitted 3000 500 claimed

abbrev sent_world : World
sent_world = record world { tables = record (world.tables) { settlements = sent ∷ [] } }

no_resubmission_example :
    execute_settlement_flow executor sample_config 3000 true sent sent_world
    ≡ execute_settlement_flow
        (record executor { submit_settlement = λ s. Submission.submitted 501 })
        sample_config
        3000
        true
        sent
        sent_world
no_resubmission_example =
    no_resubmission executor (λ s. Submission.submitted 501) sample_config 3000 true sent sent 500
      sent_world refl refl
