-- ===== src/Liquidity/Safety/Consume.antt =====
-- `consumeReservation` keeps the invariant, and its clamps never act.
use luminarail_backend.Base.{
  or_else, OnFound, none, ℕ, suc, ◌≤◌, ◌≡◌, refl, sym, true, false, Option, some, inl, inr, arith,
  find, update, OnFound-some, ◌==◌, Bool-cases, Option-cases, find-passes, ==-eq, subst,
}
use luminarail_backend.Int.{clamp, ◌-ℤ◌, -ℤ_lem, ◌≤ℤ◌, integers}
use luminarail_backend.Store.Rows.{Pool, Reservation, World}
use luminarail_backend.Store.Status.{ReservationStatus}
use luminarail_backend.Store.Table.{find_reservation}
use luminarail_backend.Store.Config.{Config}
use luminarail_backend.Store.Action.{◌>>=◌, ok}
use luminarail_backend.Liquidity.Held.{
  weight_active, held-update, is_active, weight-le-held, weight_inactive,
}
use luminarail_backend.Liquidity.Invariant.{
  IsSound, PoolIsSound, IsSound-at, sound_weaken, sound_update,
}
use luminarail_backend.Liquidity.Payout.{consume_locked, consume_reservation, consume_found}
use luminarail_backend.Liquidity.Safety.Atomic.{transaction-IsSound, found_by_id}

-- The clamps of the source, left in.
abbrev pub consume_pool : Reservation → Pool → Pool → Pool
consume_pool r p q = record q {
  total_balance = clamp (p.total_balance -ℤ r.amount);
  reserved_balance = clamp (p.reserved_balance -ℤ r.amount);
  available_balance = clamp (p.total_balance -ℤ r.amount) -ℤ clamp (p.reserved_balance -ℤ r.amount);
}

abbrev pub consume_row : Reservation → Reservation
consume_row x = record x { status = ReservationStatus.consumed }

module _ (cfg : Config) (now : ℕ) (r : Reservation) (ref : ℕ) (hash : Option ℕ) (w : World) where
  consume_ids : w.next_id ≤ (consume_locked cfg now r ref hash w).1.next_id
  unfolding consume_locked
  consume_ids = ground arith

  pub consume_input :
      (o : Option Reservation)
      → (consume_locked cfg now r ref hash w).0 ≡ ok o
      → (p : Pool) × (find (λ q. q.id == r.pool_id) w.tables.pools ≡ some p)
  unfolding consume_locked
  consume_input o h = elim (Option-cases (find (λ q. q.id == r.pool_id) w.tables.pools)) [
    | inl e ↦ absurd (ground arith)
    | inr found ↦ found
  ]

  module _ (row : find (λ x. x.id == r.id) w.tables.reservations ≡ some r) (p : Pool)
      (found : find (λ q. q.id == r.pool_id) w.tables.pools ≡ some p) where
    pub consume_same : p.id ≡ r.pool_id
    consume_same =
        ==-eq p.id r.pool_id (find-passes (λ (q : Pool). q.id == r.pool_id) w.tables.pools found)

    pub consume_again : find (λ q. q.id == p.id) w.tables.pools ≡ some p
    consume_again =
        subst (λ k. find (λ (q : Pool). q.id == k) w.tables.pools ≡ some p) (sym consume_same) found

    pub consume_reservations :
        (consume_locked cfg now r ref hash w).1.tables.reservations
        ≡ update (λ x. x.id == r.id) consume_row w.tables.reservations
    unfolding consume_locked
    consume_reservations = let again = consume_again in ground arith

    pub consume_pools :
        (consume_locked cfg now r ref hash w).1.tables.pools
        ≡ update (λ q. q.id == p.id) (consume_pool r p) w.tables.pools
    unfolding consume_locked
    consume_pools = let again = consume_again in ground arith

    pub consume_next : (consume_locked cfg now r ref hash w).1.next_id ≡ suc w.next_id
    unfolding consume_locked
    consume_next = let again = consume_again in ground arith

    module _ (sound : IsSound w) (active : is_active r.status ≡ true) where
      pub pool_sound : PoolIsSound w.tables.reservations p
      pool_sound =
          OnFound-some (PoolIsSound w.tables.reservations) (sound.pools_sound p.id) consume_again

      pub amount_held : r.amount ≤ℤ p.reserved_balance
      amount_held = grind (
        integers,
        pool_sound,
        weight_active r active,
        weight-le-held p.id (λ x. x.id == r.id) w.tables.reservations r sound.amounts_positive row,
        consume_same,
      )

      -- No clamp acts: both balances go down by exactly the amount.
      pub clamps_idle :
          (clamp (p.total_balance -ℤ r.amount) ≡ p.total_balance -ℤ r.amount)
          × (clamp (p.reserved_balance -ℤ r.amount) ≡ p.reserved_balance -ℤ r.amount)
      clamps_idle = ground (
        arith,
        pool_sound,
        amount_held,
        -ℤ_lem p.total_balance r.amount,
        -ℤ_lem p.reserved_balance r.amount,
      )

      consume_pool_sound :
          PoolIsSound
            (update (λ x. x.id == r.id) consume_row w.tables.reservations)
            (consume_pool r p p)
      consume_pool_sound =
          rw (clamps_idle.0, clamps_idle.1)
            (record {
              reserved_held = grind (
                integers,
                pool_sound,
                weight_active r active,
                consume_same,
                held-update p.id (λ x. x.id == r.id) consume_row w.tables.reservations r row,
                weight_inactive p.id (consume_row r) refl,
              );
              available_rest = refl;
              covered = grind (integers, pool_sound);
            })

      pub consume_locked-IsSound : IsSound (consume_locked cfg now r ref hash w).1
      consume_locked-IsSound =
          IsSound-at (consume_locked cfg now r ref hash w).1
            (sound_weaken w.next_id (suc w.next_id) (omega arith) (
              sound_update sound p (consume_pool r p) r consume_row consume_again row (λ q. refl)
                (λ x. refl) (λ x. refl) (λ x. refl) (sym consume_same) consume_pool_sound))
            consume_pools consume_reservations consume_next

module _ (cfg : Config) (now ref : ℕ) (hash : Option ℕ) (w : World) (r : Reservation) where
  pub consume_found_active :
      is_active r.status ≡ true
      → consume_found cfg now ref hash (some r) w ≡ consume_locked cfg now r ref hash w
  unfolding consume_found
  consume_found_active active = ground arith

  -- A reservation that has ended already is handed back, and nothing is written.
  pub consume_found_ended :
      is_active r.status ≡ false → consume_found cfg now ref hash (some r) w ≡ (ok (some r), w)
  unfolding consume_found
  consume_found_ended ended = ground arith

module _ (cfg : Config) (now ref : ℕ) (hash : Option ℕ) (w : World) (h : IsSound w) where
  consume_found_ids :
      (o : Option Reservation) → w.next_id ≤ (consume_found cfg now ref hash o w).1.next_id
  unfolding consume_found
  consume_found_ids none = omega arith
  consume_found_ids (some r) = ground (arith, consume_ids cfg now r ref hash w)

  consume_found-IsSound :
      (o : Option Reservation)
      → OnFound
          (λ (r : Reservation).
            find (λ (x : Reservation). x.id == r.id) w.tables.reservations ≡ some r)
          o
      → (a : Option Reservation) → (consume_found cfg now ref hash o w).0 ≡ ok a
      → IsSound (consume_found cfg now ref hash o w).1
  consume_found-IsSound none row a done = unfold consume_found in h
  consume_found-IsSound (some r) row a done = elim (Bool-cases (is_active r.status)) [
    | inl active ↦
        let same : consume_found cfg now ref hash (some r) w ≡ consume_locked cfg now r ref hash w =
          consume_found_active cfg now ref hash w r active in
        rw same (
          let (p, found) = consume_input cfg now r ref hash w a (rw same at done) in
          consume_locked-IsSound cfg now r ref hash w row p found h active)
    | inr ended ↦ rw (consume_found_ended cfg now ref hash w r ended) h
  ]

-- Consuming an order's reservation keeps the invariant, whatever comes of it.
pub consume-IsSound :
    (cfg : Config) (now order_id : ℕ) (ref hash : Option ℕ) (w : World)
    → IsSound w
    → IsSound (consume_reservation cfg now order_id ref hash w).1
unfolding consume_reservation
consume-IsSound cfg now order_id ref hash w h =
    let k = or_else ref order_id in
    let o = find (λ r. r.order_id == order_id) w.tables.reservations in
    transaction-IsSound
      (do
        found ← find_reservation (λ r. r.order_id == order_id)
        consume_found cfg now k hash found)
      w h (consume_found_ids cfg now k hash w h o)
      (consume_found-IsSound cfg now k hash w h o (found_by_id order_id w h))
