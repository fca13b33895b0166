-- ===== src/Liquidity/Service.antt =====
-- `LiquidityService` of modules/liquidity/liquidity.service.ts. A method that the source runs in a
-- transaction of its own is that transaction; a row lock (FOR UPDATE) changes no data.
use luminarail_backend.Base.{
  ℕ, ◌+◌, ◌*◌, not, ◌&&◌, ◌||◌, Option, none, some, any, ◌==◌, ◌===◌, if◌then◌else◌,
}
use luminarail_backend.Int.{ℤ, pos, ◌+ℤ◌, ◌-ℤ◌, lt, Decimal, positive}
use luminarail_backend.Store.Status.{
  Currency, currency_enum, ReservationStatus, reservation_status_enum, treasury_type_enum,
}
use luminarail_backend.Store.Rows.{Pool, Reservation}
use luminarail_backend.Store.Config.{Config}
use luminarail_backend.Store.Action.{
  Action, pure, gets, or_raise, raise_if, fresh, transaction, ◌>>=◌, ◌>>◌,
  reservation_amount_not_positive, insufficient_liquidity, pool_not_found, unique_violation,
}
use luminarail_backend.Store.Table.{
  find_pool, update_pool, insert_pool, find_reservation, update_reservation, insert_reservation,
}
use luminarail_backend.Liquidity.Telemetry.{evaluate_pool_balance}

-- The capacity of a pool that is created on demand: 10,000 USDC, and the threshold of 1,000.
abbrev pub default_balance : ℤ
default_balance = pos 100000000000

abbrev pub default_threshold : ℤ
default_threshold = pos 10000000000

-- The column `asset` is unique, whatever the network.
unfoldable pub create_pool : Config → Currency → ℕ → Action Pool
unfolding evaluate_pool_balance
create_pool cfg asset network = do
  taken ← gets (λ w. any (λ p. p.asset === asset) w.tables.pools)
  raise_if taken unique_violation
  id ← fresh
  created ← insert_pool (record {
    id = id;
    asset = asset;
    network = network;
    total_balance = default_balance;
    reserved_balance = pos 0;
    available_balance = default_balance;
    min_threshold = default_threshold;
  })
  evaluate_pool_balance cfg created
  pure created

unfoldable pub existing_or_create : Config → Currency → ℕ → Option Pool → Action Pool
unfolding evaluate_pool_balance
existing_or_create cfg asset network none = create_pool cfg asset network
existing_or_create cfg asset network (some existing) = do
  evaluate_pool_balance cfg existing
  pure existing

unfoldable pub get_pool : Config → Currency → ℕ → Action Pool
get_pool cfg asset network = do
  found ← find_pool (λ p. p.asset === asset && p.network == network)
  existing_or_create cfg asset network found

unfoldable pub get_available_liquidity : Config → Currency → ℕ → Action ℤ
unfolding get_pool
get_available_liquidity cfg asset network = do
  pool ← get_pool cfg asset network
  pure pool.available_balance

pub record ReserveParams : Type 0 where
  pub pool_id : ℕ
  pub order_id : ℕ
  pub amount : Decimal
  pub expiry_minutes : Option ℕ

-- `params.expiryMinutes || 15`, in milliseconds.
abbrev pub expiry_ms : Option ℕ → ℕ
expiry_ms none = 15 * 60 * 1000
expiry_ms (some m) = (if m == 0 then 15 else m) * 60 * 1000

unfoldable pub reserve_for_order_in_tx : Config → ℕ → ReserveParams → Action Reservation
unfolding evaluate_pool_balance
reserve_for_order_in_tx cfg now params = do
  amount ← or_raise (positive params.amount) reservation_amount_not_positive
  found ← find_pool (λ p. p.id == params.pool_id)
  pool ← or_raise found pool_not_found
  let current_available = pool.total_balance -ℤ pool.reserved_balance
  raise_if (lt current_available amount) insufficient_liquidity
  let new_reserved = pool.reserved_balance +ℤ amount
  let new_available = pool.total_balance -ℤ new_reserved
  raise_if (lt new_available (pos 0) || lt pool.total_balance new_reserved) insufficient_liquidity
  updated_pool ←
      update_pool pool.id
        (λ p. record p { reserved_balance = new_reserved; available_balance = new_available })
  evaluate_pool_balance cfg updated_pool
  taken ← gets (λ w. any (λ r. r.order_id == params.order_id) w.tables.reservations)
  raise_if taken unique_violation
  id ← fresh
  insert_reservation (record {
    id = id;
    pool_id = pool.id;
    order_id = params.order_id;
    amount = amount;
    status = ReservationStatus.reserved;
    expires_at = now + expiry_ms params.expiry_minutes;
  })

unfoldable pub confirm_found : Option Reservation → Action (Option Reservation)
confirm_found none = pure none
confirm_found (some reservation) =
    if reservation.status === ReservationStatus.confirmed
      || reservation.status === ReservationStatus.consumed
    then pure (some reservation)
    else if not (reservation.status === ReservationStatus.reserved)
    then pure (some reservation)
    else do
      updated ←
          update_reservation reservation.id (λ r. record r { status = ReservationStatus.confirmed })
      pure (some updated)

unfoldable pub confirm_reservation_in_tx : ℕ → Action (Option Reservation)
unfolding confirm_found
confirm_reservation_in_tx order_id = do
  found ← find_reservation (λ r. r.order_id == order_id)
  confirm_found found

unfoldable pub confirm_reservation : ℕ → Action (Option Reservation)
unfolding confirm_reservation_in_tx
confirm_reservation order_id = transaction (confirm_reservation_in_tx order_id)
