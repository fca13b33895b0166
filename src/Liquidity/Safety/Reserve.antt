-- ===== src/Liquidity/Safety/Reserve.antt =====
-- `reserveForOrderInTx` keeps the invariant.
use luminarail_backend.Base.{
  ℕ, suc, ◌+◌, ◌≤◌, ◌≡◌, refl, sym, false, some, inl, inr, [], ◌∷◌, ◌++◌, arith, find, update,
  OnFound-some, ◌==◌, Option-cases, find-passes, ==-eq, subst,
}
use luminarail_backend.Int.{ℤ, ◌+ℤ◌, ◌-ℤ◌, integers, lt, positive, positive-le}
use luminarail_backend.Store.Rows.{Pool, Reservation, World}
use luminarail_backend.Store.Status.{ReservationStatus}
use luminarail_backend.Store.Config.{Config}
use luminarail_backend.Store.Action.{transaction, ok}
use luminarail_backend.Liquidity.Held.{held-append, weight_active}
use luminarail_backend.Liquidity.Invariant.{IsSound, PoolIsSound, IsSound-at, sound_insert}
use luminarail_backend.Liquidity.Service.{ReserveParams, reserve_for_order_in_tx, expiry_ms}
use luminarail_backend.Liquidity.Safety.Atomic.{transaction-IsSound}

module _ (cfg : Config) (now : ℕ) (params : ReserveParams) (w : World) where
  reserve_ids : w.next_id ≤ (reserve_for_order_in_tx cfg now params w).1.next_id
  unfolding reserve_for_order_in_tx
  reserve_ids = ground arith

  abbrev reserve_row : ℤ → Pool → Reservation
  reserve_row a p = record {
    id = w.next_id;
    pool_id = p.id;
    order_id = params.order_id;
    amount = a;
    status = ReservationStatus.reserved;
    expires_at = now + expiry_ms params.expiry_minutes;
  }

  abbrev reserve_pool : ℤ → Pool → Pool → Pool
  reserve_pool a p q = record q {
    reserved_balance = p.reserved_balance +ℤ a;
    available_balance = p.total_balance -ℤ (p.reserved_balance +ℤ a);
  }

  -- The amount and the pool of a reservation that was made.
  reserve_inputs :
      (r : Reservation)
      → (reserve_for_order_in_tx cfg now params w).0 ≡ ok r
      → (a : ℤ) × (p : Pool) × (positive params.amount ≡ some a)
        × (find (λ q. q.id == params.pool_id) w.tables.pools ≡ some p)
  unfolding reserve_for_order_in_tx
  reserve_inputs r h = elim (Option-cases (positive params.amount)) [
    | inl e ↦ absurd (ground arith)
    | inr (a, e) ↦ elim (Option-cases (find (λ q. q.id == params.pool_id) w.tables.pools)) [
      | inl e' ↦ absurd (ground arith)
      | inr (p, e') ↦ (a, p, e, e')
    ]
  ]

  module _ (r : Reservation) (h : (reserve_for_order_in_tx cfg now params w).0 ≡ ok r) (a : ℤ)
      (p : Pool) (amount : positive params.amount ≡ some a)
      (found : find (λ q. q.id == params.pool_id) w.tables.pools ≡ some p) where
    reserve_fits : lt p.total_balance (p.reserved_balance +ℤ a) ≡ false
    unfolding reserve_for_order_in_tx
    reserve_fits = ground arith

    reserve_reservations :
        (reserve_for_order_in_tx cfg now params w).1.tables.reservations
        ≡ w.tables.reservations ++ reserve_row a p ∷ []
    unfolding reserve_for_order_in_tx
    reserve_reservations = ground arith

    reserve_next : (reserve_for_order_in_tx cfg now params w).1.next_id ≡ suc w.next_id
    unfolding reserve_for_order_in_tx
    reserve_next = ground arith

    reserve_same : p.id ≡ params.pool_id
    reserve_same =
        ==-eq p.id params.pool_id
          (find-passes (λ (q : Pool). q.id == params.pool_id) w.tables.pools found)

    reserve_pools :
        (reserve_for_order_in_tx cfg now params w).1.tables.pools
        ≡ update (λ q. q.id == p.id) (reserve_pool a p) w.tables.pools
    unfolding reserve_for_order_in_tx
    reserve_pools =
        let again : find (λ q. q.id == p.id) w.tables.pools ≡ some p =
          subst (λ k. find (λ (q : Pool). q.id == k) w.tables.pools ≡ some p) (sym reserve_same)
            found in
        ground arith

    reserve_in_tx-IsSound : IsSound w → IsSound (reserve_for_order_in_tx cfg now params w).1
    reserve_in_tx-IsSound sound =
        let again : find (λ q. q.id == p.id) w.tables.pools ≡ some p =
          subst (λ k. find (λ (q : Pool). q.id == k) w.tables.pools ≡ some p) (sym reserve_same)
            found in
        let old : PoolIsSound w.tables.reservations p =
          OnFound-some (PoolIsSound w.tables.reservations) (sound.pools_sound p.id) again in
        IsSound-at (reserve_for_order_in_tx cfg now params w).1
          (sound_insert w.next_id sound p (reserve_pool a p) (reserve_row a p) again (λ q. refl)
            refl refl (positive-le params.amount amount)
            (record {
              reserved_held = grind (
                integers,
                old,
                held-append p.id (reserve_row a p) w.tables.reservations,
                weight_active (reserve_row a p) refl,
              );
              available_rest = refl;
              covered = ground (arith, reserve_fits);
            }))
          reserve_pools reserve_reservations reserve_next

-- A reservation for an order keeps the invariant, whether it is made or refused.
pub reserve-IsSound :
    (cfg : Config) (now : ℕ) (params : ReserveParams) (w : World)
    → IsSound w
    → IsSound (transaction (reserve_for_order_in_tx cfg now params) w).1
reserve-IsSound cfg now params w h =
    transaction-IsSound (reserve_for_order_in_tx cfg now params) w h (reserve_ids cfg now params w)
      (λ r made.
        let (a, p, amount, found) = reserve_inputs cfg now params w r made in
        reserve_in_tx-IsSound cfg now params w r made a p amount found h)
