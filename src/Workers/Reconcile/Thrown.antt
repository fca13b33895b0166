-- ===== src/Workers/Reconcile/Thrown.antt =====
-- What an exception of the RPC client does to a settlement that has a transaction.
use luminarail_backend.Base.{
  ℕ, ◌≡◌, refl, true, ap, ◌∙◌, some, Option, find, update, ◌==◌, arith, find-update_same,
}
use luminarail_backend.Store.Status.{
  OrderStatus, ReservationStatus, reservation_status_enum, SettlementStatus,
}
use luminarail_backend.Store.Rows.{World, Order, Pool, Settlement, Reservation, Actor, AuditAction}
use luminarail_backend.Store.Config.{Config}
use luminarail_backend.Store.Action.{Action, ok, settle, audit_log, bind-at, pure, ◌>>◌}
use luminarail_backend.Store.Table.{update_order, set_orders}
use luminarail_backend.Machine.Settlement.{can_transition}
use luminarail_backend.Liquidity.Held.{is_active}
use luminarail_backend.Liquidity.Payout.{
  release_reservation, release_reservation_in_tx, release_found, release_locked,
}
use luminarail_backend.Liquidity.Repeat.{settle_ok}
use luminarail_backend.Liquidity.Telemetry.{evaluate_pool_balance}
use luminarail_backend.Settlement.Marks.{mark_failed}
use luminarail_backend.Stellar.Confirmation.{RpcAnswer, get_transaction_status}
use luminarail_backend.Workers.Settle.Marked.{IsStored, marked}
use luminarail_backend.Workers.Reconcile.Settlement.{
  or_text, failed_on_chain, outcome, fail_with_order, settle_failed, reconcile_submitted,
  reconcile_by_hash, reconcile_single_settlement,
}
use luminarail_backend.Workers.Reconcile.Outcome.{reconcile_read}

abbrev pub to_failed : ℕ → Settlement → Settlement
to_failed reason s = record s { status = SettlementStatus.failed; last_error = some reason }

abbrev pub order_failed : Order → Order
order_failed o = record o { status = OrderStatus.failed }

abbrev pub freed_row : Reservation → Reservation
freed_row r = record r { status = ReservationStatus.cancelled_released }

mark_failed_lem :
    (reason : ℕ) (s : Settlement) (w : World)
    → IsStored s.id s w
    → can_transition s.status SettlementStatus.failed ≡ true
    → mark_failed s.id reason w
      ≡ (ok (to_failed reason s), marked (to_failed reason) AuditAction.settlement_failed s w)
unfolding mark_failed
mark_failed_lem reason s w (row, named) allowed = ground arith

-- What the reconciliation needs to fail the settlement `s`: it may become FAILED, its order `o` exists,
-- and the reservation `r` of the order is active and has its pool `p`.
pub record IsOpen (s : Settlement) (o : Order) (r : Reservation) (p : Pool) (w : World)
    : Type 0 where
  pub stored : IsStored s.id s w
  pub may_fail : can_transition s.status SettlementStatus.failed ≡ true
  pub order_row : find (λ x. x.id == s.order_id) w.tables.orders ≡ some o
  pub reserved : find (λ x. x.order_id == s.order_id) w.tables.reservations ≡ some r
  pub reservation_row : find (λ x. x.id == r.id) w.tables.reservations ≡ some r
  pub active : is_active r.status ≡ true
  pub pool_named : find (λ x. x.id == r.pool_id) w.tables.pools ≡ some p
  pub pool_row : find (λ x. x.id == p.id) w.tables.pools ≡ some p

module _ (cfg : Config) (w : World) (r : Reservation) (p : Pool)
    (row : find (λ x. x.id == r.id) w.tables.reservations ≡ some r)
    (named : find (λ x. x.id == r.pool_id) w.tables.pools ≡ some p)
    (pool : find (λ x. x.id == p.id) w.tables.pools ≡ some p) where
  locked_returns :
      (release_locked cfg ReservationStatus.cancelled_released r w).0 ≡ ok (some (freed_row r))
  unfolding release_locked evaluate_pool_balance
  locked_returns = ground arith

  locked_rows :
      (release_locked cfg ReservationStatus.cancelled_released r w).1.tables.reservations
      ≡ update (λ x. x.id == r.id) freed_row w.tables.reservations
  unfolding release_locked evaluate_pool_balance
  locked_rows = ground arith

  module _ (order_id : ℕ)
      (found : find (λ x. x.order_id == order_id) w.tables.reservations ≡ some r)
      (active : is_active r.status ≡ true) where
    found_active :
        release_found cfg ReservationStatus.cancelled_released (some r) w
        ≡ release_locked cfg ReservationStatus.cancelled_released r w
    unfolding release_found
    found_active = ground arith

    release_entry :
        release_reservation cfg order_id ReservationStatus.cancelled_released w
        ≡ settle w (release_locked cfg ReservationStatus.cancelled_released r w)
    unfolding release_reservation release_reservation_in_tx
    release_entry = rw (found, found_active) refl

    release_whole :
        release_reservation cfg order_id ReservationStatus.cancelled_released w
        ≡ release_locked cfg ReservationStatus.cancelled_released r w
    release_whole =
        release_entry
        ∙ settle_ok w (release_locked cfg ReservationStatus.cancelled_released r w) locked_returns

release_keeps :
    (cfg : Config) (order_id : ℕ) (target : ReservationStatus) (w : World)
    → ((release_reservation cfg order_id target w).1.tables.settlements ≡ w.tables.settlements)
      × ((release_reservation cfg order_id target w).1.tables.orders ≡ w.tables.orders)
unfolding release_reservation release_reservation_in_tx release_found release_locked
    evaluate_pool_balance
release_keeps cfg order_id target w = (ground arith, ground arith)

module _ (cfg : Config) (reason : ℕ) (s : Settlement) (o : Order) (r : Reservation) (p : Pool)
    (w : World) (ready : IsOpen s o r p w) where
  -- After the settlement's mark, after the release, and after the order's update.
  abbrev noted : World
  noted = marked (to_failed reason) AuditAction.settlement_failed s w

  abbrev freed : World
  freed = (release_reservation cfg s.order_id ReservationStatus.cancelled_released noted).1

  abbrev closed : World
  closed = set_orders (update (λ x. x.id == s.order_id) order_failed freed.tables.orders) freed

  release_here :
      release_reservation cfg s.order_id ReservationStatus.cancelled_released noted
      ≡ release_locked cfg ReservationStatus.cancelled_released r noted
  release_here =
      release_whole cfg noted r p ready.reservation_row ready.pool_named ready.pool_row s.order_id
        ready.reserved ready.active

  release_done :
      release_reservation cfg s.order_id ReservationStatus.cancelled_released noted
      ≡ (ok (some (freed_row r)), freed)
  release_done =
      ap (λ a. (a, freed))
        (ap (λ e. e.0) release_here
          ∙ locked_returns cfg noted r p ready.reservation_row ready.pool_named ready.pool_row)

  order_there : find (λ x. x.id == s.order_id) freed.tables.orders ≡ some o
  order_there =
      ap (find (λ x. x.id == s.order_id))
        (release_keeps cfg s.order_id ReservationStatus.cancelled_released noted).1
      ∙ ready.order_row

  order_done : update_order s.order_id order_failed freed ≡ (ok (order_failed o), closed)
  order_done = rw (update_order, order_there) refl

  fails : fail_with_order cfg reason s w ≡ (ok (to_failed reason s), closed)
  unfolding fail_with_order
  fails =
      let end : Action Settlement =
        update_order s.order_id order_failed >> pure (to_failed reason s) in
      bind-at (mark_failed s.id reason)
        (λ failed.
          release_reservation cfg s.order_id ReservationStatus.cancelled_released
          >> (update_order s.order_id order_failed >> pure failed))
        w (mark_failed_lem reason s w ready.stored ready.may_fail)
      ∙ bind-at (release_reservation cfg s.order_id ReservationStatus.cancelled_released) (λ _. end)
          noted release_done
      ∙ bind-at (update_order s.order_id order_failed) (λ _. pure (to_failed reason s)) freed
          order_done

  settlement_after : find (λ x. x.id == s.id) closed.tables.settlements ≡ some (to_failed reason s)
  settlement_after =
      ap (find (λ x. x.id == s.id))
        (release_keeps cfg s.order_id ReservationStatus.cancelled_released noted).0
      ∙ find-update_same (λ (x : Settlement). x.id) s.id (to_failed reason) w.tables.settlements s
          ready.stored.0 refl

  order_after : find (λ x. x.id == s.order_id) closed.tables.orders ≡ some (order_failed o)
  order_after =
      find-update_same (λ (x : Order). x.id) s.order_id order_failed freed.tables.orders o
        order_there refl

  reservation_after : find (λ x. x.id == r.id) closed.tables.reservations ≡ some (freed_row r)
  reservation_after =
      ap (λ e. find (λ x. x.id == r.id) e.1.tables.reservations) release_here
      ∙ ap (find (λ x. x.id == r.id))
          (locked_rows cfg noted r p ready.reservation_row ready.pool_named ready.pool_row)
      ∙ find-update_same (λ (x : Reservation). x.id) r.id freed_row w.tables.reservations r
          ready.reservation_row refl

thrown_settles :
    (cfg : Config) (now max_hours hash message : ℕ) (rpc : ℕ → RpcAnswer) (s : Settlement)
    → rpc hash ≡ RpcAnswer.thrown message
    → reconcile_by_hash cfg now max_hours rpc (some hash) s ≡ settle_failed cfg (some message) s
unfolding reconcile_by_hash get_transaction_status reconcile_submitted
thrown_settles cfg now max_hours hash message rpc s thrown = rw thrown refl

settles :
    (cfg : Config) (error : Option ℕ) (s : Settlement) (o : Order) (r : Reservation) (p : Pool)
    (w : World) (ready : IsOpen s o r p w)
    → settle_failed cfg error s w ≡ (
      ok (outcome s SettlementStatus.failed true),
      (audit_log Actor.system AuditAction.settlement_reconciliation_failed
          (some s.id)
          (closed cfg (or_text error failed_on_chain) s o r p w ready)).1,
    )
unfolding settle_failed audit_log
settles cfg error s o r p w ready =
    bind-at (fail_with_order cfg (or_text error failed_on_chain) s)
      (λ failed.
        audit_log Actor.system AuditAction.settlement_reconciliation_failed (some s.id)
        >> pure (outcome s failed.status true))
      w (fails cfg (or_text error failed_on_chain) s o r p w ready)

-- Where the RPC client throws for the transaction of a settlement that may become FAILED, whose order
-- exists and whose reservation is active and has its pool: the reconciliation reports it as FAILED and
-- reconciled, and then the settlement is FAILED, with all else kept but the exception's message, or a
-- default for an empty one, as its error, its order is FAILED, and the reservation
-- CANCELLED_RELEASED.
pub exception_fails_settlement :
    (cfg : Config) (now max_hours hash message : ℕ) (rpc : ℕ → RpcAnswer) (s : Settlement)
    (o : Order) (r : Reservation) (p : Pool) (w : World)
    → IsOpen s o r p w
    → s.stellar_transaction_hash ≡ some hash
    → rpc hash ≡ RpcAnswer.thrown message
    → let end = reconcile_single_settlement cfg now max_hours rpc s.id w in
      (end.0 ≡ ok (outcome s SettlementStatus.failed true))
      × (find (λ x. x.id == s.id) end.1.tables.settlements
          ≡ some (to_failed (or_text (some message) failed_on_chain) s))
      × (find (λ x. x.id == s.order_id) end.1.tables.orders ≡ some (order_failed o))
      × (find (λ x. x.id == r.id) end.1.tables.reservations ≡ some (freed_row r))
unfolding audit_log
exception_fails_settlement cfg now max_hours hash message rpc s o r p w ready submitted thrown =
    let reason = or_text (some message) failed_on_chain in
    let whole =
      reconcile_read cfg now max_hours s.id rpc s w ready.stored.0
      ∙ ap (λ h. reconcile_by_hash cfg now max_hours rpc h s w) submitted
      ∙ ap (λ m. m w) (thrown_settles cfg now max_hours hash message rpc s thrown)
      ∙ settles cfg (some message) s o r p w ready in
    (
      ap (λ e. e.0) whole,
      ap (λ e. find (λ x. x.id == s.id) e.1.tables.settlements) whole
          ∙ settlement_after cfg reason s o r p w ready,
      ap (λ e. find (λ x. x.id == s.order_id) e.1.tables.orders) whole
          ∙ order_after cfg reason s o r p w ready,
      ap (λ e. find (λ x. x.id == r.id) e.1.tables.reservations) whole
          ∙ reservation_after cfg reason s o r p w ready,
    )
