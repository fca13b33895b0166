-- ===== src/Liquidity/Trace.antt =====
-- Any sequence of liquidity operations, in any order, from an empty database.
use luminarail_backend.Base.{ℕ, ◌≡◌, refl, Option, some, List, [], ◌∷◌, find, OnFound-some, ◌==◌}
use luminarail_backend.Int.{pos, Decimal, ◌≤ℤ◌, ◌-ℤ◌, integers}
use luminarail_backend.Store.Status.{ReservationStatus, TreasuryType, Currency}
use luminarail_backend.Store.Rows.{Pool, World}
use luminarail_backend.Store.Config.{Config}
use luminarail_backend.Store.Sample.{empty_world}
use luminarail_backend.Store.Action.{transaction}
use luminarail_backend.Liquidity.Held.{held_nonneg}
use luminarail_backend.Liquidity.Service.{
  ReserveParams, reserve_for_order_in_tx, confirm_reservation, get_pool,
}
use luminarail_backend.Liquidity.Payout.{
  consume_reservation, release_reservation, record_treasury_transaction,
}
use luminarail_backend.Liquidity.Invariant.{IsSound, PoolIsSound}
use luminarail_backend.Liquidity.Safety.Reserve.{reserve-IsSound}
use luminarail_backend.Liquidity.Safety.Consume.{consume-IsSound}
use luminarail_backend.Liquidity.Safety.Release.{release-IsSound}
use luminarail_backend.Liquidity.Safety.Confirm.{confirm-IsSound, record-IsSound, get_pool-IsSound}

-- One call of the service, with the time at which it runs.
pub data Call : Type 0 where
  open_pool : Currency → ℕ → Call
  reserve : ℕ → ReserveParams → Call
  confirm : ℕ → Call
  consume : ℕ → ℕ → Option ℕ → Option ℕ → Call
  cancel : ℕ → Call
  expire : ℕ → Call
  treasury : ℕ → ℕ → TreasuryType → Decimal → Option ℕ → Option ℕ → Call

unfoldable pub perform : Config → Call → World → World
perform cfg (open_pool asset network) w = (get_pool cfg asset network w).1
perform cfg (reserve now params) w = (transaction (reserve_for_order_in_tx cfg now params) w).1
perform cfg (confirm order_id) w = (confirm_reservation order_id w).1
perform cfg (consume now order_id ref hash) w = (consume_reservation cfg now order_id ref hash w).1
perform cfg (cancel order_id) w =
    (release_reservation cfg order_id ReservationStatus.cancelled_released w).1
perform cfg (expire order_id) w =
    (release_reservation cfg order_id ReservationStatus.expired_released w).1
perform cfg (treasury now pool_id type amount ref hash) w =
    (record_treasury_transaction cfg now pool_id type amount ref hash w).1

unfoldable pub perform_all : Config → List Call → World → World
perform_all cfg [] w = w
perform_all cfg (c ∷ cs) w = perform_all cfg cs (perform cfg c w)

perform-IsSound : (cfg : Config) (c : Call) (w : World) → IsSound w → IsSound (perform cfg c w)
unfolding perform
perform-IsSound cfg (open_pool asset network) w h = get_pool-IsSound cfg asset network w h
perform-IsSound cfg (reserve now params) w h = reserve-IsSound cfg now params w h
perform-IsSound cfg (confirm order_id) w h = confirm-IsSound order_id w h
perform-IsSound cfg (consume now order_id ref hash) w h =
    consume-IsSound cfg now order_id ref hash w h
perform-IsSound cfg (cancel order_id) w h =
    release-IsSound cfg order_id ReservationStatus.cancelled_released w refl h
perform-IsSound cfg (expire order_id) w h =
    release-IsSound cfg order_id ReservationStatus.expired_released w refl h
perform-IsSound cfg (treasury now pool_id type amount ref hash) w h =
    record-IsSound cfg now pool_id type amount ref hash w h

-- Whatever sequence of calls is performed, and whichever of them throw, a state that satisfies the
-- invariant is left in one that does: each pool's reserved balance is the sum of its RESERVED and
-- CONFIRMED reservations, its available balance the rest, and no more is reserved than there is.
pub perform_all-IsSound :
    (cfg : Config) (cs : List Call) (w : World) → IsSound w → IsSound (perform_all cfg cs w)
unfolding perform_all
perform_all-IsSound cfg [] w h = h
perform_all-IsSound cfg (c ∷ cs) w h =
    perform_all-IsSound cfg cs (perform cfg c w) (perform-IsSound cfg c w h)

pub empty-IsSound : IsSound empty_world
empty-IsSound = record {
  pools_sound = λ k. tt;
  amounts_positive = tt;
  ids_distinct = tt;
  ids_taken = tt;
  pool_ids_taken = tt;
  pools_taken = tt;
}

-- From an empty database, after any calls, no pool is over-committed: a pool that is found has
-- 0 <= reserved, 0 <= available and available = total - reserved.
pub never_overcommitted :
    (cfg : Config) (cs : List Call) (k : ℕ) {p : Pool}
    → find (λ q. q.id == k) (perform_all cfg cs empty_world).tables.pools ≡ some p
    → (pos 0 ≤ℤ p.reserved_balance)
      × (pos 0 ≤ℤ p.available_balance)
      × (p.available_balance ≡ p.total_balance -ℤ p.reserved_balance)
never_overcommitted cfg cs k {p} found =
    let w = perform_all cfg cs empty_world in
    let h : IsSound w = perform_all-IsSound cfg cs empty_world empty-IsSound in
    let s : PoolIsSound w.tables.reservations p =
      OnFound-some (PoolIsSound w.tables.reservations) (h.pools_sound k) found in
    let nonneg = held_nonneg p.id w.tables.reservations h.amounts_positive in
    (grind (integers, s, nonneg), grind (integers, s, nonneg), s.available_rest)
