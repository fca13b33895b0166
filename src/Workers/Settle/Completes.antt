-- ===== src/Workers/Settle/Completes.antt =====
-- A payout that the chain accepts and confirms is completed.
use luminarail_backend.Base.{
  ℕ, ◌≡◌, refl, ap, ◌∙◌, true, Option, none, some, or_else, find, update, ◌==◌, arith,
  find-update_same,
}
use luminarail_backend.Store.Status.{
  ReservationStatus, reservation_status_enum, SettlementStatus, settlement_status_enum,
}
use luminarail_backend.Store.Rows.{World, Order, Settlement, Reservation, Pool, Actor, AuditAction}
use luminarail_backend.Store.Config.{Config}
use luminarail_backend.Store.Action.{ok, audit_log, bind-at, pure, ◌>>=◌}
use luminarail_backend.Liquidity.Held.{is_active}
use luminarail_backend.Liquidity.Payout.{consume_reservation, consume_found, consume_locked}
use luminarail_backend.Liquidity.Repeat.{consume_active, settle_ok}
use luminarail_backend.Liquidity.Telemetry.{evaluate_pool_balance}
use luminarail_backend.Settlement.Marks.{mark_submitted, mark_confirming, mark_completed}
use luminarail_backend.Stellar.Confirmation.{Confirmation}
use luminarail_backend.Workers.Settle.Flow.{
  Submission, Executor, continues, record_submission, submit_once, after_submission,
  begin_confirming, confirm_hash, record_confirmation, execute_settlement_flow,
}
use luminarail_backend.Workers.Settle.Once.{run_found}
use luminarail_backend.Workers.Settle.Marked.{
  IsStored, marked, marked-IsStored, to_submitted, to_confirming, to_completed, order_completed,
  completing, pay_out, mark_submitted_lem, mark_confirming_lem, mark_completed_lem,
}

abbrev pub consumed : Reservation → Reservation
consumed r = record r { status = ReservationStatus.consumed }

module _ (cfg : Config) (now : ℕ) (hash : Option ℕ) (w : World) (r : Reservation) (p : Pool)
    (row : find (λ x. x.id == r.id) w.tables.reservations ≡ some r)
    (named : find (λ x. x.id == r.pool_id) w.tables.pools ≡ some p)
    (pool : find (λ x. x.id == p.id) w.tables.pools ≡ some p) where
  locked_returns : (ref : ℕ) → (consume_locked cfg now r ref hash w).0 ≡ ok (some (consumed r))
  unfolding consume_locked evaluate_pool_balance
  locked_returns ref = ground arith

  locked_rows :
      (ref : ℕ)
      → (consume_locked cfg now r ref hash w).1.tables.reservations
        ≡ update (λ x. x.id == r.id) consumed w.tables.reservations
  unfolding consume_locked evaluate_pool_balance
  locked_rows ref = ground arith

  module _ (order_id : ℕ) (ref : Option ℕ)
      (found : find (λ x. x.order_id == order_id) w.tables.reservations ≡ some r)
      (active : is_active r.status ≡ true) where
    consume_whole :
        consume_reservation cfg now order_id ref hash w
        ≡ consume_locked cfg now r (or_else ref order_id) hash w
    consume_whole =
        consume_active cfg now order_id ref hash w r found active
        ∙ settle_ok w (consume_locked cfg now r (or_else ref order_id) hash w)
            (locked_returns (or_else ref order_id))

    consume_returns : (consume_reservation cfg now order_id ref hash w).0 ≡ ok (some (consumed r))
    consume_returns = ap (λ e. e.0) consume_whole ∙ locked_returns (or_else ref order_id)

    consume_rows :
        (consume_reservation cfg now order_id ref hash w).1.tables.reservations
        ≡ update (λ x. x.id == r.id) consumed w.tables.reservations
    consume_rows =
        ap (λ e. e.1.tables.reservations) consume_whole ∙ locked_rows (or_else ref order_id)

consume_keeps :
    (cfg : Config) (now order_id : ℕ) (ref hash : Option ℕ) (w : World)
    → ((consume_reservation cfg now order_id ref hash w).1.tables.settlements
        ≡ w.tables.settlements)
      × ((consume_reservation cfg now order_id ref hash w).1.tables.orders ≡ w.tables.orders)
unfolding consume_reservation consume_found consume_locked evaluate_pool_balance
consume_keeps cfg now order_id ref hash w = (ground arith, ground arith)

-- What the worker needs for a payout: the settlement `s` is SUBMITTING and without a hash, its order `o`
-- exists, and the reservation `r` of the order is active and has its pool `p`.
pub record IsReady (s : Settlement) (o : Order) (r : Reservation) (p : Pool) (w : World)
    : Type 0 where
  pub stored : IsStored s.id s w
  pub claimed : s.status ≡ SettlementStatus.submitting
  pub unsent : s.stellar_transaction_hash ≡ none
  pub order_row : find (λ x. x.id == s.order_id) w.tables.orders ≡ some o
  pub reserved : find (λ x. x.order_id == s.order_id) w.tables.reservations ≡ some r
  pub reservation_row : find (λ x. x.id == r.id) w.tables.reservations ≡ some r
  pub active : is_active r.status ≡ true
  pub pool_named : find (λ x. x.id == r.pool_id) w.tables.pools ≡ some p
  pub pool_row : find (λ x. x.id == p.id) w.tables.pools ≡ some p

module _ (executor : Executor) (cfg : Config) (now hash ledger : ℕ) (s : Settlement) (o : Order)
    (r : Reservation) (p : Pool) (w : World) (ready : IsReady s o r p w)
    (accepted : executor.submit_settlement s ≡ Submission.submitted hash)
    (confirms : executor.confirm_settlement hash ≡ Confirmation.confirmed (some ledger)) where
  abbrev sent : Settlement
  sent = to_submitted now hash s

  abbrev after_sent : World
  after_sent = marked (to_submitted now hash) AuditAction.settlement_submitted s w

  abbrev waiting : Settlement
  waiting = to_confirming sent

  abbrev after_waiting : World
  after_waiting = marked to_confirming AuditAction.settlement_confirming sent after_sent

  sent-IsStored : IsStored s.id sent after_sent
  sent-IsStored =
      marked-IsStored (to_submitted now hash) AuditAction.settlement_submitted s w ready.stored refl
        refl

  waiting-IsStored : IsStored s.id waiting after_waiting
  waiting-IsStored =
      marked-IsStored to_confirming AuditAction.settlement_confirming sent after_sent sent-IsStored
        refl refl

  paid : (pay_out cfg now ledger waiting after_waiting).0 ≡ ok (some (consumed r))
  paid =
      consume_returns cfg now (some hash) (completing now ledger waiting after_waiting) r p
        ready.reservation_row ready.pool_named ready.pool_row s.order_id (some s.settlement_id)
        ready.reserved ready.active

  abbrev final : World
  final =
      (audit_log Actor.system AuditAction.settlement_completed (some s.id)
        (pay_out cfg now ledger waiting after_waiting).1).1

  submits : submit_once executor now true s none w ≡ (ok (continues sent), after_sent)
  unfolding submit_once record_submission
  submits =
      ap (λ a. record_submission now s a w) accepted
      ∙ bind-at (mark_submitted now s.id hash) (λ updated. pure (continues updated)) w
          (mark_submitted_lem now hash s w ready.stored ready.claimed)

  completes :
      record_confirmation cfg now waiting (executor.confirm_settlement hash) after_waiting
      ≡ (ok SettlementStatus.completed, final)
  unfolding record_confirmation
  completes =
      ap (λ c. record_confirmation cfg now waiting c after_waiting) confirms
      ∙ bind-at (mark_completed cfg now s.id ledger) (λ done. pure done.status) after_waiting
          (mark_completed_lem cfg now ledger waiting after_waiting o (some (consumed r))
            waiting-IsStored refl ready.order_row paid)

  confirms_sent :
      after_submission executor cfg now (continues sent) after_sent
      ≡ (ok SettlementStatus.completed, final)
  unfolding after_submission begin_confirming confirm_hash
  confirms_sent =
      bind-at (mark_confirming s.id)
        (λ current. confirm_hash executor cfg now current current.stellar_transaction_hash)
        after_sent (mark_confirming_lem sent after_sent sent-IsStored refl)
      ∙ completes

  runs : execute_settlement_flow executor cfg now true s w ≡ (ok SettlementStatus.completed, final)
  runs =
      let next = after_submission executor cfg now in
      run_found executor cfg now true s s w ready.stored.0
      ∙ ap (λ h. (submit_once executor now true s h >>= next) w) ready.unsent
      ∙ bind-at (submit_once executor now true s none) next w submits
      ∙ confirms_sent

  abbrev payment_made : World
  payment_made = completing now ledger waiting after_waiting

  settlement_after :
      find (λ x. x.id == s.id) final.tables.settlements ≡ some (to_completed now ledger waiting)
  unfolding audit_log
  settlement_after =
      ap (find (λ x. x.id == s.id))
        (consume_keeps cfg now s.order_id (some s.settlement_id) (some hash) payment_made).0
      ∙ find-update_same (λ (x : Settlement). x.id) s.id (to_completed now ledger)
          after_waiting.tables.settlements waiting waiting-IsStored.0 refl

  order_after : find (λ x. x.id == s.order_id) final.tables.orders ≡ some (order_completed o)
  unfolding audit_log
  order_after =
      ap (find (λ x. x.id == s.order_id))
        (consume_keeps cfg now s.order_id (some s.settlement_id) (some hash) payment_made).1
      ∙ find-update_same (λ (x : Order). x.id) s.order_id order_completed w.tables.orders o
          ready.order_row refl

  reservation_after : find (λ x. x.id == r.id) final.tables.reservations ≡ some (consumed r)
  unfolding audit_log
  reservation_after =
      ap (find (λ x. x.id == r.id)) (
        consume_rows cfg now (some hash) payment_made r p ready.reservation_row ready.pool_named
          ready.pool_row s.order_id (some s.settlement_id) ready.reserved ready.active)
      ∙ find-update_same (λ (x : Reservation). x.id) r.id consumed w.tables.reservations r
          ready.reservation_row refl

-- A SUBMITTING settlement without a hash, whose order, reservation and pool are in place, is paid out
-- when the worker owns its lock, the network accepts the transaction and the polling confirms it: the
-- flow returns COMPLETED, and then the settlement is COMPLETED with the hash and the ledger, its order
-- COMPLETED, and the reservation CONSUMED.
pub payout_completes :
    (executor : Executor) (cfg : Config) (now hash ledger : ℕ) (s : Settlement) (o : Order)
    (r : Reservation) (p : Pool) (w : World)
    → IsReady s o r p w
    → executor.submit_settlement s ≡ Submission.submitted hash
    → executor.confirm_settlement hash ≡ Confirmation.confirmed (some ledger)
    → let end = execute_settlement_flow executor cfg now true s w in
      (end.0 ≡ ok SettlementStatus.completed)
      × (find (λ x. x.id == s.id) end.1.tables.settlements
          ≡ some (to_completed now ledger (to_confirming (to_submitted now hash s))))
      × (find (λ x. x.id == s.order_id) end.1.tables.orders ≡ some (order_completed o))
      × (find (λ x. x.id == r.id) end.1.tables.reservations ≡ some (consumed r))
payout_completes executor cfg now hash ledger s o r p w ready accepted confirms =
    let whole = runs executor cfg now hash ledger s o r p w ready accepted confirms in
    (
      ap (λ e. e.0) whole,
      ap (λ e. find (λ x. x.id == s.id) e.1.tables.settlements) whole
          ∙ settlement_after executor cfg now hash ledger s o r p w ready accepted confirms,
      ap (λ e. find (λ x. x.id == s.order_id) e.1.tables.orders) whole
          ∙ order_after executor cfg now hash ledger s o r p w ready accepted confirms,
      ap (λ e. find (λ x. x.id == r.id) e.1.tables.reservations) whole
          ∙ reservation_after executor cfg now hash ledger s o r p w ready accepted confirms,
    )
