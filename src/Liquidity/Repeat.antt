-- ===== src/Liquidity/Repeat.antt =====
-- `consumeReservation` called twice for one order: one after the other, and at the same time.
use luminarail_backend.Base.{
  ◌++◌, ◌∷◌, [], length, length-append, ◌+◌, find-passes, ==-eq, find-key, ◌∙◌, ap, ◌≢◌,
  find-update_key, find-update_same, or_else, none, ℕ, ◌≡◌, refl, sym, true, false, Option, some,
  inl, inr, arith, find, update, ◌==◌, Bool-cases, Option-cases,
}
use luminarail_backend.Int.{ℤ, -ℤ_lem, clamp, pos, ◌≤ℤ◌, ◌+ℤ◌, ◌-ℤ◌, integers}
use luminarail_backend.Store.Rows.{Pool, Reservation, World}
use luminarail_backend.Store.Status.{TreasuryType}
use luminarail_backend.Store.Config.{Config}
use luminarail_backend.Store.Action.{err, Result, settle, ok}
use luminarail_backend.Liquidity.Held.{is_active}
use luminarail_backend.Liquidity.Invariant.{IsSound}
use luminarail_backend.Liquidity.Payout.{consume_locked, consume_reservation, consume_found}
use luminarail_backend.Liquidity.Safety.Consume.{
  consume_input, consume_reservations, consume_pool, consume_row, consume_found_active,
  consume_found_ended,
}

module _ (cfg : Config) (now ref : ℕ) (hash : Option ℕ) (w : World) where
  consume_result :
      (r : Reservation) (o : Option Reservation)
      → find (λ x. x.id == r.id) w.tables.reservations ≡ some r
      → (consume_locked cfg now r ref hash w).0 ≡ ok o
      → o ≡ some (consume_row r)
  unfolding consume_locked
  consume_result r o row done = ground arith

module _ (cfg : Config) (now order_id : ℕ) (ref hash : Option ℕ) (w : World) (r : Reservation)
    (found : find (λ x. x.order_id == order_id) w.tables.reservations ≡ some r) where
  consume_ended :
      is_active r.status ≡ false
      → consume_reservation cfg now order_id ref hash w ≡ (ok (some r), w)
  unfolding consume_reservation
  consume_ended ended =
      rw (found, consume_found_ended cfg now (or_else ref order_id) hash w r ended) refl

  pub consume_active :
      is_active r.status ≡ true
      → consume_reservation cfg now order_id ref hash w
        ≡ settle w (consume_locked cfg now r (or_else ref order_id) hash w)
  unfolding consume_reservation
  consume_active active =
      rw (found, consume_found_active cfg now (or_else ref order_id) hash w r active) refl

pub settle_ok :
    {A : Type 0} (w : World) (m : Result A × World) {a : A} → m.0 ≡ ok a → settle w m ≡ m
settle_ok w (ok x, w') h = refl
settle_ok w (err e, w') h = cc

settle_result : {A : Type 0} (w : World) (m : Result A × World) → (settle w m).0 ≡ m.0
settle_result w (ok x, w') = refl
settle_result w (err e, w') = refl

consume_missing :
    (cfg : Config) (now order_id : ℕ) (ref hash : Option ℕ) (w : World) (r : Reservation)
    → find (λ x. x.order_id == order_id) w.tables.reservations ≡ none
    → (consume_reservation cfg now order_id ref hash w).0 ≢ ok (some r)
unfolding consume_reservation consume_found
consume_missing cfg now order_id ref hash w r missing done = ground arith

module _ (cfg : Config) (now now' order_id : ℕ) (ref ref' hash hash' : Option ℕ) (w : World)
    (sound : IsSound w) where
  consume_again_found :
      (r r1 : Reservation)
      → find (λ x. x.order_id == order_id) w.tables.reservations ≡ some r
      → (consume_reservation cfg now order_id ref hash w).0 ≡ ok (some r1)
      → consume_reservation cfg now' order_id ref' hash'
          (consume_reservation cfg now order_id ref hash w).1
        ≡ (ok (some r1), (consume_reservation cfg now order_id ref hash w).1)
  consume_again_found r r1 found done = elim (Bool-cases (is_active r.status)) [
    | inl active ↦
        let k = or_else ref order_id in
        let m = consume_locked cfg now r k hash w in
        let entry = consume_active cfg now order_id ref hash w r found active in
        let row : find (λ x. x.id == r.id) w.tables.reservations ≡ some r =
          find-key (λ (x : Reservation). x.id) (λ x. x.order_id == order_id) w.tables.reservations
            sound.ids_distinct found in
        let ended : m.0 ≡ ok (some r1) =
          sym (settle_result w m) ∙ ap (λ y. y.0) (sym entry) ∙ done in
        let first : consume_reservation cfg now order_id ref hash w ≡ m =
          entry ∙ settle_ok w m ended in
        let (p, pool) = consume_input cfg now r k hash w (some r1) ended in
        let new_row : find (λ x. x.order_id == order_id) m.1.tables.reservations
            ≡ some (consume_row r) =
          rw (consume_reservations cfg now r k hash w row p pool) (
            find-update_key (λ (x : Reservation). x.id) (λ x. x.order_id == order_id) consume_row
              w.tables.reservations r sound.ids_distinct found
              (find-passes (λ (x : Reservation). x.order_id == order_id) w.tables.reservations
                found)) in
        let value : some r1 ≡ some (consume_row r) =
          consume_result cfg now k hash w r (some r1) row ended in
        rw (first, value) (consume_ended cfg now' order_id ref' hash' m.1 _ new_row refl)
    | inr over ↦
        let first = consume_ended cfg now order_id ref hash w r found over in
        let value : some r1 ≡ some r = cc (done, ap (λ y. y.0) first) in
        rw (first, value) (consume_ended cfg now' order_id ref' hash' w r found over)
  ]

-- An order's reservation is consumed at most once by calls that follow one another: the second call
-- returns the reservation that the first returned and changes nothing, neither the pool nor the
-- treasury's records.
pub consume_idempotent :
    (cfg : Config) (now now' order_id : ℕ) (ref ref' hash hash' : Option ℕ) (w : World)
    (r : Reservation)
    → IsSound w
    → (consume_reservation cfg now order_id ref hash w).0 ≡ ok (some r)
    → consume_reservation cfg now' order_id ref' hash'
        (consume_reservation cfg now order_id ref hash w).1
      ≡ (ok (some r), (consume_reservation cfg now order_id ref hash w).1)
consume_idempotent cfg now now' order_id ref ref' hash hash' w r sound done =
    elim (Option-cases (find (λ x. x.order_id == order_id) w.tables.reservations)) [
      | inl missing ↦ absurd (consume_missing cfg now order_id ref hash w r missing done)
      | inr (old, found) ↦
          consume_again_found cfg now now' order_id ref ref' hash hash' w sound old r found done
    ]

-- What a caller that holds the pool's lock writes, whatever has become of the reservation's row.
module _ (cfg : Config) (now ref : ℕ) (hash : Option ℕ) (w : World) (r now_row : Reservation)
    (p : Pool) (row : find (λ x. x.id == r.id) w.tables.reservations ≡ some now_row)
    (named : p.id ≡ r.pool_id) (found : find (λ q. q.id == r.pool_id) w.tables.pools ≡ some p) where
  locked_pools :
      (consume_locked cfg now r ref hash w).1.tables.pools
      ≡ update (λ q. q.id == r.pool_id) (consume_pool r p) w.tables.pools
  unfolding consume_locked
  locked_pools = ground arith

  locked_rows :
      (consume_locked cfg now r ref hash w).1.tables.reservations
      ≡ update (λ x. x.id == r.id) consume_row w.tables.reservations
  unfolding consume_locked
  locked_rows = ground arith

  locked_payout :
      (consume_locked cfg now r ref hash w).1.tables.treasury
      ≡ w.tables.treasury
        ++ record {
          id = w.next_id;
          pool_id = p.id;
          type = TreasuryType.settlement_payout;
          amount = r.amount;
          stellar_tx_hash = hash;
          external_ref = some ref;
          created_at = now;
        }
          ∷ []
  unfolding consume_locked
  locked_payout = ground arith

  locked_treasury :
      length (consume_locked cfg now r ref hash w).1.tables.treasury ≡ length w.tables.treasury + 1
  locked_treasury = rw locked_payout (length-append w.tables.treasury _)

  locked_found :
      find (λ q. q.id == r.pool_id) (consume_locked cfg now r ref hash w).1.tables.pools
      ≡ some (consume_pool r p p)
  locked_found = rw locked_pools (
      find-update_same (λ (q : Pool). q.id) r.pool_id (consume_pool r p) w.tables.pools p found
        refl)

  locked_row :
      find (λ x. x.id == r.id) (consume_locked cfg now r ref hash w).1.tables.reservations
      ≡ some (consume_row now_row)
  locked_row = rw locked_rows (
      find-update_same (λ (x : Reservation). x.id) r.id consume_row w.tables.reservations now_row
        row refl)

clamp_idle : (t a : ℤ) → a ≤ℤ t → clamp (t -ℤ a) ≡ t -ℤ a
clamp_idle t a h = ground (arith, -ℤ_lem t a)

twice_total : (a t : ℤ) → pos 1 ≤ℤ a → a +ℤ a ≤ℤ t → clamp (clamp (t -ℤ a) -ℤ a) +ℤ (a +ℤ a) ≡ t
twice_total a t h fits =
    rw (clamp_idle t a (omega (integers, h, fits)))
      (rw (clamp_idle (t -ℤ a) a (omega (integers, h, fits))) (omega integers))

-- Two callers that both read an active reservation before either of them holds the pool's row lock
-- both go through: where the pool covers it, its total goes down by twice the reservation's amount,
-- and two payouts are recorded for the one reservation.
pub consume_race :
    (cfg : Config) (now now' ref ref' : ℕ) (hash hash' : Option ℕ) (w : World) (r : Reservation)
    (p : Pool)
    → find (λ x. x.id == r.id) w.tables.reservations ≡ some r
    → find (λ q. q.id == r.pool_id) w.tables.pools ≡ some p
    → pos 1 ≤ℤ r.amount
    → r.amount +ℤ r.amount ≤ℤ p.total_balance
    → let w2 = (consume_locked cfg now' r ref' hash' (consume_locked cfg now r ref hash w).1).1 in
      (q : Pool) × (find (λ x. x.id == r.pool_id) w2.tables.pools ≡ some q)
      × (q.total_balance +ℤ (r.amount +ℤ r.amount) ≡ p.total_balance)
      × (length w2.tables.treasury ≡ length w.tables.treasury + 2)
consume_race cfg now now' ref ref' hash hash' w r p row found positive_amount fits =
    let w1 = (consume_locked cfg now r ref hash w).1 in
    let named =
      ==-eq p.id r.pool_id (find-passes (λ (q : Pool). q.id == r.pool_id) w.tables.pools found) in
    let row' = locked_row cfg now ref hash w r r p row named found in
    let found' = locked_found cfg now ref hash w r r p row named found in
    let p' = consume_pool r p p in
    (
      consume_pool r p' p',
      locked_found cfg now' ref' hash' w1 r (consume_row r) p' row' named found',
      twice_total r.amount p.total_balance positive_amount fits,
      omega (
        arith,
        locked_treasury cfg now ref hash w r r p row named found,
        locked_treasury cfg now' ref' hash' w1 r (consume_row r) p' row' named found',
      ),
    )
