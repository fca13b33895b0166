-- ===== src/Liquidity/Safety/Confirm.antt =====
-- `confirmReservation` and the pools' own operations keep the invariant.
use luminarail_backend.Base.{
  ap, any, if◌then◌else◌, ℕ, suc, ◌≤◌, ◌≡◌, refl, true, false, ◌&&◌, Option, none, some, inl, inr,
  [], ◌∷◌, ◌++◌, arith, find, update, OnFound, OnFound-some, Bool-cases, Option-cases, ◌==◌, ◌===◌,
}
use luminarail_backend.Int.{ℤ, pos, Decimal, ◌+ℤ◌, -ℤ_lem, ◌-ℤ◌, lt, positive}
use luminarail_backend.Store.Status.{
  ReservationStatus, TreasuryType, Currency, currency_enum, reservation_status_enum,
  treasury_type_enum,
}
use luminarail_backend.Store.Rows.{Pool, Reservation, World, TreasuryTransaction}
use luminarail_backend.Store.Config.{Config}
use luminarail_backend.Store.Action.{ok}
use luminarail_backend.Liquidity.Held.{is_active, weight_status}
use luminarail_backend.Liquidity.Invariant.{
  IsSound, PoolIsSound, IsSound-at, sound_row, sound_weaken, sound_pool, sound_open,
}
use luminarail_backend.Liquidity.Service.{
  confirm_found, confirm_reservation, confirm_reservation_in_tx, get_pool, create_pool,
  existing_or_create, default_balance, default_threshold,
}
use luminarail_backend.Liquidity.Payout.{record_in_tx, record_treasury_transaction}
use luminarail_backend.Liquidity.Safety.Atomic.{transaction-IsSound, found_by_id}

module _ (w : World) (r : Reservation) where
  module _ (row : find (λ x. x.id == r.id) w.tables.reservations ≡ some r)
      (pending : (r.status === ReservationStatus.reserved) ≡ true) where
    confirm_rows :
        (confirm_found (some r) w).1.tables.reservations
        ≡ update
            (λ x. x.id == r.id)
            (λ x. record x { status = ReservationStatus.confirmed })
            w.tables.reservations
    unfolding confirm_found
    confirm_rows = ground arith

    confirm_pools : (confirm_found (some r) w).1.tables.pools ≡ w.tables.pools
    unfolding confirm_found
    confirm_pools = ground arith

    confirm_next : (confirm_found (some r) w).1.next_id ≡ w.next_id
    unfolding confirm_found
    confirm_next = ground arith

  confirm_skips :
      (r.status === ReservationStatus.reserved) ≡ false
      → confirm_found (some r) w ≡ (ok (some r), w)
  unfolding confirm_found
  confirm_skips other = ground arith

  reserved_active : (r.status === ReservationStatus.reserved) ≡ true → is_active r.status ≡ true
  reserved_active e = ground arith

confirm_found_ids : (w : World) (o : Option Reservation) → w.next_id ≤ (confirm_found o w).1.next_id
unfolding confirm_found
confirm_found_ids w none = omega arith
confirm_found_ids w (some r) = ground arith

confirm_found-IsSound :
    (w : World) (o : Option Reservation)
    → IsSound w
    → OnFound
        (λ (r : Reservation).
          find (λ (x : Reservation). x.id == r.id) w.tables.reservations ≡ some r)
        o
    → IsSound (confirm_found o w).1
confirm_found-IsSound w none h row = unfold confirm_found in h
confirm_found-IsSound w (some r) h row =
    elim (Bool-cases (r.status === ReservationStatus.reserved)) [
      | inl pending ↦
          IsSound-at (confirm_found (some r) w).1
            (sound_row r (λ x. record x { status = ReservationStatus.confirmed }) h row (λ x. refl)
              (λ x. refl) (λ x. refl)
              (λ k.
                weight_status k r ReservationStatus.confirmed (reserved_active w r pending) refl))
            (confirm_pools w r row pending) (confirm_rows w r row pending)
            (confirm_next w r row pending)
      | inr other ↦ rw (confirm_skips w r other) h
    ]

-- Confirming an order's reservation keeps the invariant.
pub confirm-IsSound :
    (order_id : ℕ) (w : World) → IsSound w → IsSound (confirm_reservation order_id w).1
unfolding confirm_reservation
confirm-IsSound order_id w h =
    let o = find (λ r. r.order_id == order_id) w.tables.reservations in
    transaction-IsSound (confirm_reservation_in_tx order_id) w h (confirm_found_ids w o)
      (λ a done. confirm_found-IsSound w o h (found_by_id order_id w h))

module _ (cfg : Config) (now k : ℕ) (type : TreasuryType) (a : ℤ) (ref hash : Option ℕ)
    (w : World) where
  record_ids : w.next_id ≤ (record_in_tx cfg now k type a ref hash w).1.next_id
  unfolding record_in_tx
  record_ids = ground arith

  record_input :
      (t : TreasuryTransaction)
      → (record_in_tx cfg now k type a ref hash w).0 ≡ ok t
      → (p : Pool) × (find (λ q. q.id == k) w.tables.pools ≡ some p)
  unfolding record_in_tx
  record_input t h = elim (Option-cases (find (λ q. q.id == k) w.tables.pools)) [
    | inl e ↦ absurd (ground arith)
    | inr found ↦ found
  ]

  -- The total that the transaction leaves: up by a deposit, down by a payout.
  abbrev new_total : Pool → ℤ
  new_total p =
      if type === TreasuryType.settlement_payout then p.total_balance -ℤ a else p.total_balance +ℤ a

  module _ (t : TreasuryTransaction) (done : (record_in_tx cfg now k type a ref hash w).0 ≡ ok t)
      (p : Pool) (found : find (λ q. q.id == k) w.tables.pools ≡ some p) where
    record_fits : lt (new_total p -ℤ p.reserved_balance) (pos 0) ≡ false
    unfolding record_in_tx
    record_fits = ground arith

    record_pools :
        (record_in_tx cfg now k type a ref hash w).1.tables.pools
        ≡ update
            (λ q. q.id == k)
            (λ q. record q {
              total_balance = new_total p;
              available_balance = new_total p -ℤ p.reserved_balance;
            })
            w.tables.pools
    unfolding record_in_tx
    record_pools = ground arith

    record_rows :
        (record_in_tx cfg now k type a ref hash w).1.tables.reservations ≡ w.tables.reservations
    unfolding record_in_tx
    record_rows = ground arith

    record_next : (record_in_tx cfg now k type a ref hash w).1.next_id ≡ suc w.next_id
    unfolding record_in_tx
    record_next = ground arith

    record_in_tx-IsSound : IsSound w → IsSound (record_in_tx cfg now k type a ref hash w).1
    record_in_tx-IsSound h =
        let old : PoolIsSound w.tables.reservations p =
          OnFound-some (PoolIsSound w.tables.reservations) (h.pools_sound k) found in
        IsSound-at (record_in_tx cfg now k type a ref hash w).1
          (sound_weaken w.next_id (suc w.next_id) (omega arith) (
            sound_pool k _ p h found (λ q. refl)
              (record {
                reserved_held = old.reserved_held;
                available_rest = refl;
                covered = ground (arith, record_fits, -ℤ_lem (new_total p) p.reserved_balance);
              })))
          record_pools record_rows record_next

-- A treasury transaction keeps the invariant, whether it is recorded or refused.
pub record-IsSound :
    (cfg : Config) (now k : ℕ) (type : TreasuryType) (amount : Decimal) (ref hash : Option ℕ)
    (w : World)
    → IsSound w
    → IsSound (record_treasury_transaction cfg now k type amount ref hash w).1
unfolding record_treasury_transaction
record-IsSound cfg now k type amount ref hash w h = elim (Option-cases (positive amount)) [
  | inl e ↦ rw e h
  | inr (a, e) ↦ rw e (
      transaction-IsSound (record_in_tx cfg now k type a ref hash) w h
        (record_ids cfg now k type a ref hash w)
        (λ t done.
          let (p, found) = record_input cfg now k type a ref hash w t done in
          record_in_tx-IsSound cfg now k type a ref hash w t done p found h))
]

module _ (cfg : Config) (asset : Currency) (network : ℕ) (w : World) where
  abbrev opened_pool : Pool
  opened_pool = record {
    id = w.next_id;
    asset = asset;
    network = network;
    total_balance = default_balance;
    reserved_balance = pos 0;
    available_balance = default_balance;
    min_threshold = default_threshold;
  }

  create_rows : (create_pool cfg asset network w).1.tables.reservations ≡ w.tables.reservations
  unfolding create_pool
  create_rows = ground arith

  create_pools :
      any (λ p. p.asset === asset) w.tables.pools ≡ false
      → (create_pool cfg asset network w).1.tables.pools ≡ w.tables.pools ++ opened_pool ∷ []
  unfolding create_pool
  create_pools free = ground arith

  create_next :
      any (λ p. p.asset === asset) w.tables.pools ≡ false
      → (create_pool cfg asset network w).1.next_id ≡ suc w.next_id
  unfolding create_pool
  create_next free = ground arith

  create_refused :
      any (λ p. p.asset === asset) w.tables.pools ≡ true → (create_pool cfg asset network w).1 ≡ w
  unfolding create_pool
  create_refused taken = ground arith

  create_pool-IsSound : IsSound w → IsSound (create_pool cfg asset network w).1
  create_pool-IsSound h = elim (Bool-cases (any (λ p. p.asset === asset) w.tables.pools)) [
    | inl taken ↦ rw (create_refused taken) h
    | inr free ↦
        IsSound-at (create_pool cfg asset network w).1
          (sound_open w.next_id opened_pool h refl refl refl (omega arith)) (create_pools free)
          create_rows (create_next free)
  ]

existing_pools :
    (cfg : Config) (asset : Currency) (network : ℕ) (p : Pool) (w : World)
    → (existing_or_create cfg asset network (some p) w).1.tables ≡ w.tables
unfolding existing_or_create
existing_pools cfg asset network p w = ground arith

existing_next :
    (cfg : Config) (asset : Currency) (network : ℕ) (p : Pool) (w : World)
    → (existing_or_create cfg asset network (some p) w).1.next_id ≡ w.next_id
unfolding existing_or_create
existing_next cfg asset network p w = ground arith

found_or_opened :
    (cfg : Config) (asset : Currency) (network : ℕ) (o : Option Pool) (w : World)
    → IsSound w
    → IsSound (existing_or_create cfg asset network o w).1
found_or_opened cfg asset network none w h =
    unfold existing_or_create in create_pool-IsSound cfg asset network w h
found_or_opened cfg asset network (some p) w h =
    IsSound-at (existing_or_create cfg asset network (some p) w).1 h
      (ap (λ t. t.pools) (existing_pools cfg asset network p w))
      (ap (λ t. t.reservations) (existing_pools cfg asset network p w))
      (existing_next cfg asset network p w)

-- Looking a pool up, or opening it on demand, keeps the invariant.
pub get_pool-IsSound :
    (cfg : Config) (asset : Currency) (network : ℕ) (w : World)
    → IsSound w
    → IsSound (get_pool cfg asset network w).1
unfolding get_pool
get_pool-IsSound cfg asset network w h =
    found_or_opened cfg asset network
      (find (λ p. p.asset === asset && p.network == network) w.tables.pools) w h
