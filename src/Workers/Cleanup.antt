-- ===== src/Workers/Cleanup.antt =====
-- `ReservationCleanupWorker` of workers/reservation-cleanup.worker.ts, and that its sweep keeps the
-- liquidity invariant.
use luminarail_backend.Base.{
  ℕ, ⊤, Bool, ◌&&◌, ◌||◌, not, Option, none, some, List, [], ◌∷◌, select, take, leb, ◌==◌, ◌===◌,
  if◌then◌else◌, refl, arith,
}
use luminarail_backend.Store.Status.{
  OrderStatus, order_status_enum, ReservationStatus, reservation_status_enum,
}
use luminarail_backend.Store.Rows.{World, Order, Reservation}
use luminarail_backend.Store.Config.{Config}
use luminarail_backend.Store.Action.{Action, pure, gets, ◌>>=◌, ◌>>◌}
use luminarail_backend.Store.Table.{find_reservation, find_order, update_order}
use luminarail_backend.Liquidity.Payout.{expire_reservation, release_reservation}
use luminarail_backend.Liquidity.Invariant.{IsSound, IsSound-at}
use luminarail_backend.Lock.Guard.{LockAnswer, locked_sweep}
use luminarail_backend.Liquidity.Keeps.{Keeps, Keeps-locked_sweep, Keeps-bind, Keeps-if}
use luminarail_backend.Liquidity.Safety.Release.{release-IsSound}

-- The order of a released reservation, which becomes EXPIRED if it still waits to be paid.
unfoldable pub expire_order : Option Order → Action ⊤
expire_order none = pure tt
expire_order (some order) =
    if order.status === OrderStatus.created || order.status === OrderStatus.awaiting_payment
    then update_order order.id (λ o. record o { status = OrderStatus.expired }) >> pure tt
    else pure tt

-- What follows the release. The result is the released reservation, whose columns it reports.
unfoldable pub report : ℕ → Option Reservation → Action (Option Reservation)
unfolding expire_order
report order_id none = pure none
report order_id (some updated) = do
  target ← find_order (λ o. o.id == order_id)
  expire_order target
  pure (some updated)

unfoldable pub expire_found : Config → Option Reservation → Action (Option Reservation)
unfolding expire_reservation report
expire_found cfg none = pure none
expire_found cfg (some reservation) =
    if not (reservation.status === ReservationStatus.reserved)
    then pure none
    else expire_reservation cfg reservation.order_id >>= report reservation.order_id

unfoldable pub process_single_reservation : Config → ℕ → Action (Option Reservation)
unfolding expire_found
process_single_reservation cfg reservation_id =
    find_reservation (λ r. r.id == reservation_id) >>= expire_found cfg

-- `if (result) { results.push(result) }`
abbrev pub push : Option Reservation → List Reservation → List Reservation
push none rs = rs
push (some r) rs = r ∷ rs

-- The loop; a throw ends it.
unfoldable pub process_each : Config → List Reservation → Action (List Reservation)
unfolding process_single_reservation
process_each cfg [] = pure []
process_each cfg (r ∷ rs) = do
  result ← process_single_reservation cfg r.id
  results ← process_each cfg rs
  pure (push result results)

-- `orderBy: { expiresAt: 'asc' }`
unfoldable pub insert_by_expiry : Reservation → List Reservation → List Reservation
insert_by_expiry r [] = r ∷ []
insert_by_expiry r (x ∷ xs) =
    let rest = insert_by_expiry r xs in
    if leb r.expires_at x.expires_at then r ∷ x ∷ xs else x ∷ rest

unfoldable pub sort_by_expiry : List Reservation → List Reservation
unfolding insert_by_expiry
sort_by_expiry [] = []
sort_by_expiry (r ∷ rs) = insert_by_expiry r (sort_by_expiry rs)

abbrev pub is_overdue : ℕ → Reservation → Bool
is_overdue now r = r.status === ReservationStatus.reserved && leb r.expires_at now

-- `options.batchSize || 20`
abbrev pub batch_size : Option ℕ → ℕ
batch_size none = 20
batch_size (some n) = if n == 0 then 20 else n

unfoldable pub process_expired_reservations :
    Config → LockAnswer → ℕ → Option ℕ → Action (List Reservation)
unfolding process_each locked_sweep
process_expired_reservations cfg lock now size = locked_sweep cfg lock (
    gets
      (λ w. take (batch_size size) (sort_by_expiry (select (is_overdue now) w.tables.reservations)))
    >>= process_each cfg)

expire_order-Keeps : (o : Option Order) → Keeps (expire_order o)
unfolding expire_order
expire_order-Keeps none w h = h
expire_order-Keeps (some o) w h =
    IsSound-at (expire_order (some o) w).1 h (ground arith) (ground arith) (ground arith)

report-Keeps : (order_id : ℕ) (o : Option Reservation) → Keeps (report order_id o)
unfolding report
report-Keeps order_id none = λ w h. h
report-Keeps order_id (some r) =
    Keeps-bind (find_order (λ o. o.id == order_id)) (λ target. expire_order target >> pure (some r))
      (λ w h. h)
      (λ target.
        Keeps-bind (expire_order target) (λ _. pure (some r)) (expire_order-Keeps target)
          (λ u w h. h))

expire_found-Keeps : (cfg : Config) (o : Option Reservation) → Keeps (expire_found cfg o)
unfolding expire_found expire_reservation
expire_found-Keeps cfg none = λ w h. h
expire_found-Keeps cfg (some r) =
    Keeps-if (not (r.status === ReservationStatus.reserved)) (pure none)
      (expire_reservation cfg r.order_id >>= report r.order_id) (λ w h. h)
      (Keeps-bind (release_reservation cfg r.order_id ReservationStatus.expired_released)
        (report r.order_id)
        (λ w h. release-IsSound cfg r.order_id ReservationStatus.expired_released w refl h)
        (report-Keeps r.order_id))

process_single-Keeps : (cfg : Config) (k : ℕ) → Keeps (process_single_reservation cfg k)
unfolding process_single_reservation
process_single-Keeps cfg k =
    Keeps-bind (find_reservation (λ x. x.id == k)) (expire_found cfg) (λ w h. h)
      (expire_found-Keeps cfg)

process_each-Keeps : (cfg : Config) (rs : List Reservation) → Keeps (process_each cfg rs)
unfolding process_each
process_each-Keeps cfg [] = λ w h. h
process_each-Keeps cfg (r ∷ rs) =
    Keeps-bind (process_single_reservation cfg r.id)
      (λ result. process_each cfg rs >>= λ results. pure (push result results))
      (process_single-Keeps cfg r.id)
      (λ result.
        Keeps-bind (process_each cfg rs) (λ results. pure (push result results))
          (process_each-Keeps cfg rs) (λ results w h. h))

-- However its lock is answered for, and whichever reservation makes it throw, the cleanup of expired
-- reservations keeps the liquidity invariant.
pub sweep-IsSound :
    (cfg : Config) (lock : LockAnswer) (now : ℕ) (size : Option ℕ) (w : World)
    → IsSound w
    → IsSound (process_expired_reservations cfg lock now size w).1
unfolding process_expired_reservations
sweep-IsSound cfg lock now size = Keeps-locked_sweep cfg lock _ (
    Keeps-bind
      (gets (λ w.
        take (batch_size size) (sort_by_expiry (select (is_overdue now) w.tables.reservations))))
      (process_each cfg) (λ w h. h) (process_each-Keeps cfg))
