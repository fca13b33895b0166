-- ===== src/Liquidity/Safety/Release.antt =====
-- `releaseReservation` keeps the invariant, and its clamp never acts.
use luminarail_backend.Base.{
  OnFound, none, ℕ, ◌≤◌, ◌≡◌, refl, sym, true, false, Option, some, inl, inr, arith, find, update,
  OnFound-some, ◌==◌, Bool-cases, Option-cases, find-passes, ==-eq, subst, All-find,
}
use luminarail_backend.Int.{clamp, pos, ◌-ℤ◌, -ℤ_lem, ◌≤ℤ◌, integers}
use luminarail_backend.Store.Rows.{Pool, Reservation, World}
use luminarail_backend.Store.Status.{ReservationStatus}
use luminarail_backend.Store.Config.{Config}
use luminarail_backend.Store.Action.{ok}
use luminarail_backend.Liquidity.Held.{
  IsPositive, weight_active, held-update, is_active, weight-le-held, weight_inactive,
}
use luminarail_backend.Liquidity.Invariant.{IsSound, PoolIsSound, IsSound-at, sound_update}
use luminarail_backend.Liquidity.Payout.{
  release_locked, release_reservation, release_reservation_in_tx, release_found,
}
use luminarail_backend.Liquidity.Safety.Atomic.{transaction-IsSound, found_by_id}

module _ (cfg : Config) (target : ReservationStatus) (r : Reservation) (w : World) where
  release_ids : w.next_id ≤ (release_locked cfg target r w).1.next_id
  unfolding release_locked
  release_ids = ground arith

  abbrev release_pool : Pool → Pool → Pool
  release_pool p q = record q {
    reserved_balance = clamp (p.reserved_balance -ℤ r.amount);
    available_balance = p.total_balance -ℤ clamp (p.reserved_balance -ℤ r.amount);
  }

  abbrev release_row : Reservation → Reservation
  release_row x = record x { status = target }

  release_input :
      (o : Option Reservation)
      → (release_locked cfg target r w).0 ≡ ok o
      → (p : Pool) × (find (λ q. q.id == r.pool_id) w.tables.pools ≡ some p)
  unfolding release_locked
  release_input o h = elim (Option-cases (find (λ q. q.id == r.pool_id) w.tables.pools)) [
    | inl e ↦ absurd (ground arith)
    | inr found ↦ found
  ]

  module _ (row : find (λ x. x.id == r.id) w.tables.reservations ≡ some r) (p : Pool)
      (found : find (λ q. q.id == r.pool_id) w.tables.pools ≡ some p) where
    release_same : p.id ≡ r.pool_id
    release_same =
        ==-eq p.id r.pool_id (find-passes (λ (q : Pool). q.id == r.pool_id) w.tables.pools found)

    release_again : find (λ q. q.id == p.id) w.tables.pools ≡ some p
    release_again =
        subst (λ k. find (λ (q : Pool). q.id == k) w.tables.pools ≡ some p) (sym release_same) found

    pub release_reservations :
        (release_locked cfg target r w).1.tables.reservations
        ≡ update (λ x. x.id == r.id) release_row w.tables.reservations
    unfolding release_locked
    release_reservations = let again = release_again in ground arith

    pub release_pools :
        (release_locked cfg target r w).1.tables.pools
        ≡ update (λ q. q.id == p.id) (release_pool p) w.tables.pools
    unfolding release_locked
    release_pools = let again = release_again in ground arith

    release_next : (release_locked cfg target r w).1.next_id ≡ w.next_id
    unfolding release_locked
    release_next = let again = release_again in ground arith

    module _ (sound : IsSound w) (active : is_active r.status ≡ true)
        (ends : is_active target ≡ false) where
      release_pool_old : PoolIsSound w.tables.reservations p
      release_pool_old =
          OnFound-some (PoolIsSound w.tables.reservations) (sound.pools_sound p.id) release_again

      -- The clamp does not act: the reserved balance goes down by exactly the amount.
      pub release_clamp_idle :
          clamp (p.reserved_balance -ℤ r.amount) ≡ p.reserved_balance -ℤ r.amount
      release_clamp_idle =
          let held_amount : r.amount ≤ℤ p.reserved_balance = grind (
            integers,
            release_pool_old,
            weight_active r active,
            weight-le-held p.id (λ x. x.id == r.id) w.tables.reservations r sound.amounts_positive
                row,
            release_same,
          ) in
          ground (arith, release_pool_old, held_amount, -ℤ_lem p.reserved_balance r.amount)

      release_pool_sound :
          PoolIsSound
            (update (λ x. x.id == r.id) release_row w.tables.reservations)
            (release_pool p p)
      release_pool_sound = rw release_clamp_idle (record {
        reserved_held = grind (
          integers,
          release_pool_old,
          weight_active r active,
          release_same,
          held-update p.id (λ x. x.id == r.id) release_row w.tables.reservations r row,
          weight_inactive p.id (release_row r) ends,
        );
        available_rest = refl;
        covered = grind (integers, release_pool_old, sound_amount);
      })
        where
          sound_amount : pos 1 ≤ℤ r.amount
          sound_amount =
              All-find IsPositive (λ x. x.id == r.id) w.tables.reservations sound.amounts_positive
                row

      pub release_locked-IsSound : IsSound (release_locked cfg target r w).1
      release_locked-IsSound =
          IsSound-at (release_locked cfg target r w).1
            (sound_update sound p (release_pool p) r release_row release_again row (λ q. refl)
              (λ x. refl) (λ x. refl) (λ x. refl) (sym release_same) release_pool_sound)
            release_pools release_reservations release_next

module _ (cfg : Config) (target : ReservationStatus) (w : World) (r : Reservation) where
  release_found_active :
      is_active r.status ≡ true
      → release_found cfg target (some r) w ≡ release_locked cfg target r w
  unfolding release_found
  release_found_active active = ground arith

  -- A reservation that has ended already is handed back, and nothing is written.
  pub release_found_ended :
      is_active r.status ≡ false → release_found cfg target (some r) w ≡ (ok (some r), w)
  unfolding release_found
  release_found_ended ended = ground arith

module _ (cfg : Config) (target : ReservationStatus) (w : World) (h : IsSound w) where
  release_found_ids :
      (o : Option Reservation) → w.next_id ≤ (release_found cfg target o w).1.next_id
  unfolding release_found
  release_found_ids none = omega arith
  release_found_ids (some r) = ground (arith, release_ids cfg target r w)

  release_found-IsSound :
      (o : Option Reservation)
      → is_active target ≡ false
      → OnFound
          (λ (r : Reservation).
            find (λ (x : Reservation). x.id == r.id) w.tables.reservations ≡ some r)
          o
      → (a : Option Reservation) → (release_found cfg target o w).0 ≡ ok a
      → IsSound (release_found cfg target o w).1
  release_found-IsSound none ends row a done = unfold release_found in h
  release_found-IsSound (some r) ends row a done = elim (Bool-cases (is_active r.status)) [
    | inl active ↦
        let same : release_found cfg target (some r) w ≡ release_locked cfg target r w =
          release_found_active cfg target w r active in
        rw same (
          let (p, found) = release_input cfg target r w a (rw same at done) in
          release_locked-IsSound cfg target r w row p found h active ends)
    | inr ended ↦ rw (release_found_ended cfg target w r ended) h
  ]

-- Releasing an order's reservation to a status that holds nothing keeps the invariant.
pub release-IsSound :
    (cfg : Config) (order_id : ℕ) (target : ReservationStatus) (w : World)
    → is_active target ≡ false
    → IsSound w
    → IsSound (release_reservation cfg order_id target w).1
unfolding release_reservation
release-IsSound cfg order_id target w ends h =
    let o = find (λ r. r.order_id == order_id) w.tables.reservations in
    transaction-IsSound (release_reservation_in_tx cfg order_id target) w h
      (release_found_ids cfg target w h o)
      (release_found-IsSound cfg target w h o ends (found_by_id order_id w h))
