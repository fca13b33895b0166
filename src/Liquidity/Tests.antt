-- ===== src/Liquidity/Tests.antt =====
-- Instances of the theorems on liquidity, at a pool with one confirmed reservation of 400 USDC.
use luminarail_backend.Base.{◌≡◌, refl, none, some, List, [], ◌∷◌, find, ◌==◌, length, arith}
use luminarail_backend.Int.{pos, finite, ◌+ℤ◌, ◌-ℤ◌, ◌≤ℤ◌}
use luminarail_backend.Store.Status.{Currency, ReservationStatus}
use luminarail_backend.Store.Rows.{Pool, Reservation, World}
use luminarail_backend.Store.Action.{ok}
use luminarail_backend.Store.Sample.{empty_world, sample_config}
use luminarail_backend.Liquidity.Telemetry.{evaluate_pool_balance}
use luminarail_backend.Liquidity.Service.{
  get_pool, existing_or_create, create_pool, reserve_for_order_in_tx, confirm_reservation,
}
use luminarail_backend.Liquidity.Payout.{consume_locked, consume_reservation}
use luminarail_backend.Liquidity.Invariant.{IsSound}
use luminarail_backend.Liquidity.Trace.{
  Call, perform, perform_all, perform_all-IsSound, never_overcommitted, empty-IsSound,
}
use luminarail_backend.Liquidity.Repeat.{consume_idempotent, consume_race}

abbrev calls : List Call
calls =
    Call.open_pool Currency.usdc 0
    ∷ Call.reserve 1000 (record {
      pool_id = 0;
      order_id = 9;
      amount = finite (pos 4000000000);
      expiry_minutes = none;
    })
    ∷ Call.confirm 9
    ∷ []

abbrev pool : Pool
pool = record {
  id = 0;
  asset = Currency.usdc;
  network = 0;
  total_balance = pos 100000000000;
  reserved_balance = pos 4000000000;
  available_balance = pos 96000000000;
  min_threshold = pos 10000000000;
}

abbrev reservation : Reservation
reservation = record {
  id = 1;
  pool_id = 0;
  order_id = 9;
  amount = pos 4000000000;
  status = ReservationStatus.confirmed;
  expires_at = 901000;
}

-- The state that the calls lead to.
abbrev reserved : World
reserved = record empty_world {
  tables = record (empty_world.tables) { pools = pool ∷ []; reservations = reservation ∷ [] };
  next_id = 2;
}

calls_lead : perform_all sample_config calls empty_world ≡ reserved
unfolding perform_all perform get_pool reserve_for_order_in_tx confirm_reservation
    evaluate_pool_balance existing_or_create create_pool ◌+ℤ◌ ◌-ℤ◌
calls_lead = refl

perform_all-IsSound_example : IsSound (perform_all sample_config calls empty_world)
perform_all-IsSound_example = perform_all-IsSound sample_config calls empty_world empty-IsSound

never_overcommitted_example :
    (pos 0 ≤ℤ pos 4000000000)
    × (pos 0 ≤ℤ pos 96000000000)
    × (pos 96000000000 ≡ pos 100000000000 -ℤ pos 4000000000)
unfolding perform_all perform get_pool reserve_for_order_in_tx confirm_reservation
    evaluate_pool_balance existing_or_create create_pool ◌+ℤ◌ ◌-ℤ◌
never_overcommitted_example = never_overcommitted sample_config calls 0 {p = pool} refl

reserved-IsSound : IsSound reserved
reserved-IsSound = rw calls_lead at perform_all-IsSound_example

consume_idempotent_example :
    consume_reservation sample_config 2001 9 none none
      (consume_reservation sample_config 2000 9 none (some 5) reserved).1
    ≡ (
      ok (some (record reservation { status = ReservationStatus.consumed })),
      (consume_reservation sample_config 2000 9 none (some 5) reserved).1,
    )
unfolding consume_reservation consume_locked ◌-ℤ◌
consume_idempotent_example =
    consume_idempotent sample_config 2000 2001 9 none none (some 5) none reserved
      (record reservation { status = ReservationStatus.consumed }) reserved-IsSound refl

consume_race_example :
    let w2 =
      (consume_locked sample_config 2001 reservation 9 none
        (consume_locked sample_config 2000 reservation 9 (some 5) reserved).1).1 in
    (q : Pool) × (find (λ x. x.id == 0) w2.tables.pools ≡ some q)
    × (q.total_balance +ℤ (pos 4000000000 +ℤ pos 4000000000) ≡ pos 100000000000)
    × (length w2.tables.treasury ≡ 2)
unfolding ◌+ℤ◌
consume_race_example =
    consume_race sample_config 2000 2001 9 9 (some 5) none reserved reservation pool refl refl
      (omega arith) (omega arith)
