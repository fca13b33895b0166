-- ===== src/Liquidity/Payout.antt =====
-- `LiquidityService` of modules/liquidity/liquidity.service.ts, continued: how a reservation ends, and
-- the treasury's own transactions. A method that the source runs in a
-- transaction of its own is that transaction; a row lock (FOR UPDATE) changes no data.
use luminarail_backend.Base.{ℕ, Bool, ◌||◌, Option, none, some, ◌==◌, ◌===◌, or_else, if◌then◌else◌}
use luminarail_backend.Int.{ℤ, pos, ◌+ℤ◌, ◌-ℤ◌, lt, clamp, Decimal, positive}
use luminarail_backend.Store.Status.{
  currency_enum, ReservationStatus, reservation_status_enum, TreasuryType, treasury_type_enum,
}
use luminarail_backend.Store.Rows.{Reservation, TreasuryTransaction}
use luminarail_backend.Store.Config.{Config}
use luminarail_backend.Store.Action.{
  Action, pure, or_raise, raise_if, fresh, transaction, ◌>>=◌, ◌>>◌, treasury_amount_not_positive,
  insufficient_total_balance, negative_available_balance, record_missing,
}
use luminarail_backend.Store.Table.{
  find_pool, update_pool, find_reservation, update_reservation, insert_treasury,
}
use luminarail_backend.Liquidity.Telemetry.{evaluate_pool_balance}

-- What `consumeReservation` does once it waits for the pool's row lock: it goes by the reservation
-- that it read before.
unfoldable pub consume_locked :
    Config → ℕ → Reservation → ℕ → Option ℕ → Action (Option Reservation)
unfolding evaluate_pool_balance
consume_locked cfg now reservation external_ref stellar_tx_hash = do
  found ← find_pool (λ p. p.id == reservation.pool_id)
  pool ← or_raise found record_missing
  let new_total = pool.total_balance -ℤ reservation.amount
  let new_reserved = pool.reserved_balance -ℤ reservation.amount
  let safe_total = clamp new_total
  let safe_reserved = clamp new_reserved
  let safe_available = safe_total -ℤ safe_reserved
  updated_pool ← update_pool pool.id (λ p. record p {
    total_balance = safe_total;
    reserved_balance = safe_reserved;
    available_balance = safe_available;
  })
  evaluate_pool_balance cfg updated_pool
  updated ←
      update_reservation reservation.id (λ r. record r { status = ReservationStatus.consumed })
  id ← fresh
  insert_treasury (record {
    id = id;
    pool_id = pool.id;
    type = TreasuryType.settlement_payout;
    amount = reservation.amount;
    stellar_tx_hash = stellar_tx_hash;
    external_ref = some external_ref;
    created_at = now;
  })
  pure (some updated)

abbrev pub is_released : ReservationStatus → Bool
is_released s =
    s === ReservationStatus.expired_released || s === ReservationStatus.cancelled_released

unfoldable pub consume_found :
    Config → ℕ → ℕ → Option ℕ → Option Reservation → Action (Option Reservation)
consume_found cfg now external_ref stellar_tx_hash none = pure none
consume_found cfg now external_ref stellar_tx_hash (some reservation) =
    if reservation.status === ReservationStatus.consumed
    then pure (some reservation)
    else if is_released reservation.status
    then pure (some reservation)
    else consume_locked cfg now reservation external_ref stellar_tx_hash

unfoldable pub consume_reservation :
    Config → ℕ → ℕ → Option ℕ → Option ℕ → Action (Option Reservation)
unfolding consume_found
consume_reservation cfg now order_id external_ref stellar_tx_hash = transaction (do
  found ← find_reservation (λ r. r.order_id == order_id)
  consume_found cfg now (or_else external_ref order_id) stellar_tx_hash found)

-- What `releaseReservationInTx` does once it waits for the pool's row lock.
unfoldable pub release_locked :
    Config → ReservationStatus → Reservation → Action (Option Reservation)
unfolding evaluate_pool_balance
release_locked cfg target_status reservation = do
  found ← find_pool (λ p. p.id == reservation.pool_id)
  pool ← or_raise found record_missing
  let safe_reserved = clamp (pool.reserved_balance -ℤ reservation.amount)
  let new_available = pool.total_balance -ℤ safe_reserved
  updated_pool ←
      update_pool pool.id
        (λ p. record p { reserved_balance = safe_reserved; available_balance = new_available })
  evaluate_pool_balance cfg updated_pool
  updated ← update_reservation reservation.id (λ r. record r { status = target_status })
  pure (some updated)

unfoldable pub release_found :
    Config → ReservationStatus → Option Reservation → Action (Option Reservation)
release_found cfg target_status none = pure none
release_found cfg target_status (some reservation) =
    if reservation.status === ReservationStatus.consumed || is_released reservation.status
    then pure (some reservation)
    else release_locked cfg target_status reservation

unfoldable pub release_reservation_in_tx :
    Config → ℕ → ReservationStatus → Action (Option Reservation)
unfolding release_found
release_reservation_in_tx cfg order_id target_status = do
  found ← find_reservation (λ r. r.order_id == order_id)
  release_found cfg target_status found

unfoldable pub release_reservation : Config → ℕ → ReservationStatus → Action (Option Reservation)
unfolding release_reservation_in_tx
release_reservation cfg order_id target_status =
    transaction (release_reservation_in_tx cfg order_id target_status)

unfoldable pub expire_reservation : Config → ℕ → Action (Option Reservation)
unfolding release_reservation
expire_reservation cfg order_id =
    release_reservation cfg order_id ReservationStatus.expired_released

-- The pool's total after a treasury transaction; a payout beyond the total throws.
abbrev pub adjusted_total : TreasuryType → ℤ → ℤ → Action ℤ
adjusted_total type total amount =
    if type === TreasuryType.replenishment
      || type === TreasuryType.manual_adjustment
      || type === TreasuryType.fee_collection
    then pure (total +ℤ amount)
    else if type === TreasuryType.settlement_payout
    then raise_if (lt (total -ℤ amount) (pos 0)) insufficient_total_balance
      >> pure (total -ℤ amount)
    else pure total

unfoldable pub record_in_tx :
    Config → ℕ → ℕ → TreasuryType → ℤ → Option ℕ → Option ℕ → Action TreasuryTransaction
unfolding evaluate_pool_balance
record_in_tx cfg now pool_id type amount external_ref stellar_tx_hash = do
  found ← find_pool (λ p. p.id == pool_id)
  pool ← or_raise found record_missing
  new_total ← adjusted_total type pool.total_balance amount
  let new_available = new_total -ℤ pool.reserved_balance
  raise_if (lt new_available (pos 0)) negative_available_balance
  updated_pool ←
      update_pool pool_id
        (λ p. record p { total_balance = new_total; available_balance = new_available })
  evaluate_pool_balance cfg updated_pool
  id ← fresh
  insert_treasury (record {
    id = id;
    pool_id = pool_id;
    type = type;
    amount = amount;
    stellar_tx_hash = stellar_tx_hash;
    external_ref = external_ref;
    created_at = now;
  })

unfoldable pub record_treasury_transaction :
    Config → ℕ → ℕ → TreasuryType → Decimal → Option ℕ → Option ℕ → Action TreasuryTransaction
unfolding record_in_tx
record_treasury_transaction cfg now pool_id type amount external_ref stellar_tx_hash = do
  amount_dec ← or_raise (positive amount) treasury_amount_not_positive
  transaction (record_in_tx cfg now pool_id type amount_dec external_ref stellar_tx_hash)
