-- ===== src/Workers/Reconcile/Tests.antt =====
-- Instances of the theorems on the reconciliation daemon.
use luminarail_backend.Base.{
  ◌⊎◌, ℕ, ◌≡◌, ◌≢◌, refl, true, false, not, ◌&&◌, Option, none, some, List, [], ◌∷◌, find, length,
  ◌==◌, if◌then◌else◌,
}
use luminarail_backend.Int.{pos, finite}
use luminarail_backend.Store.Status.{
  OrderStatus, PaymentStatus, SettlementStatus, ReservationStatus, OrderType, Currency,
}
use luminarail_backend.Store.Rows.{World, Order, Payment, Settlement, Reservation, Pool}
use luminarail_backend.Lock.Guard.{LockAnswer, is_acquired, is_unreachable}
use luminarail_backend.Store.Sample.{empty_world, sample_config}
use luminarail_backend.Store.Action.{err, lock_unavailable, ok}
use luminarail_backend.Liquidity.Invariant.{IsSound}
use luminarail_backend.Liquidity.Trace.{Call, perform_all, perform_all-IsSound, empty-IsSound}
use luminarail_backend.Stellar.Confirmation.{RpcAnswer, get_transaction_status}
use luminarail_backend.Workers.Reconcile.Settlement.{
  Reconciled, outcome, or_text, failed_on_chain, reconcile_single_settlement, reconcile_by_hash,
  reconcile_submitted, settle_executed,
}
use luminarail_backend.Workers.Reconcile.Sweep.{process_reconciliation, selected}
use luminarail_backend.Workers.Reconcile.Keeping.{reconciliation-IsSound}
use luminarail_backend.Workers.Reconcile.Reports.{sweep_reports}
use luminarail_backend.Workers.Reconcile.Outcome.{completed_only_if_executed}
use luminarail_backend.Workers.Reconcile.Thrown.{
  IsOpen, to_failed, order_failed, freed_row, exception_fails_settlement,
}
use luminarail_backend.Workers.Reconcile.Payment.{
  PaymentResult, Verified, ActionTaken, reconcile_single_payment_order, reconcile_order,
  reconcile_referenced, apply_verification, confirm_order, mark_payment, ensure_settlement, changed,
}
use luminarail_backend.Workers.Reconcile.Paid.{IsPaid, confirmed-IsPaid}
use luminarail_backend.Workers.Reconcile.Stranded.{confirmed_unselected}
use luminarail_backend.Workers.Settle.Sweep.{is_eligible}
use luminarail_backend.Settlement.Marks.{mark_completed, complete_in_tx}
use luminarail_backend.Settlement.Service.{get_settlement_by_id}
use luminarail_backend.Machine.Settlement.{can_transition}
use luminarail_backend.Liquidity.Payout.{consume_reservation, consume_found}
use luminarail_backend.Liquidity.Service.{confirm_reservation_in_tx, confirm_found}
use luminarail_backend.Store.Action.{audit_log}

abbrev order : Order
order = record {
  id = 9;
  user_id = 4;
  quote_id = 2;
  idempotency_key = none;
  type = OrderType.on_ramp;
  status = OrderStatus.awaiting_payment;
  source_currency = Currency.ngn;
  destination_asset = Currency.usdc;
  source_amount = pos 6000000;
  destination_amount = pos 4000000000;
  wallet_address = some (71 ∷ []);
  created_at = 1000;
}

abbrev payment : Payment
payment = record {
  id = 5;
  order_id = 9;
  user_id = 4;
  provider = 1;
  provider_payment_id = none;
  amount = pos 6000000;
  platform_fee = pos 60000;
  net_amount = pos 5940000;
  currency = Currency.ngn;
  status = PaymentStatus.pending;
  reference = 8;
  idempotency_key = none;
  created_at = 1500;
}

abbrev settlement : Settlement
settlement = record {
  id = 6;
  settlement_id = 42;
  order_id = 9;
  user_id = 4;
  status = SettlementStatus.confirming;
  asset = Currency.usdc;
  amount = pos 4000000000;
  source = 77;
  destination = some (71 ∷ []);
  stellar_transaction_hash = some 500;
  stellar_ledger = none;
  attempt_count = 1;
  last_error = none;
  submitted_at = some 3000;
  confirmed_at = none;
  created_at = 2000;
}

-- The order waits for its payment; no settlement.
abbrev unpaid : World
unpaid = record empty_world {
  tables = record (empty_world.tables) { orders = order ∷ []; payments = payment ∷ [] };
}

-- The settlement is CONFIRMING.
abbrev submitted : World
submitted = record empty_world {
  tables = record (empty_world.tables) { orders = order ∷ []; settlements = settlement ∷ [] };
}

abbrev unreachable : ℕ → RpcAnswer
unreachable hash = RpcAnswer.thrown 21

abbrev executed : ℕ → RpcAnswer
executed hash = RpcAnswer.success 33

abbrev executed_result : Reconciled
executed_result = record {
  settlement_id = 42;
  order_id = 9;
  previous_status = SettlementStatus.confirming;
  new_status = SettlementStatus.completed;
  reconciled = true;
  has_error = false;
}

is_completed :
    (reconcile_single_settlement sample_config 5000 24 executed 6 submitted).0 ≡ ok executed_result
unfolding reconcile_single_settlement reconcile_by_hash reconcile_submitted settle_executed
    get_transaction_status mark_completed complete_in_tx get_settlement_by_id can_transition
    consume_reservation consume_found audit_log
is_completed = refl

unfinished : SettlementStatus.confirming ≢ SettlementStatus.completed
unfinished e = cc

completed_only_if_executed_example :
    (hash : ℕ) × (ledger : ℕ) × (settlement.stellar_transaction_hash ≡ some hash)
    × (executed hash ≡ RpcAnswer.success ledger)
completed_only_if_executed_example =
    completed_only_if_executed sample_config 5000 24 6 executed settlement submitted executed_result
      refl is_completed refl unfinished

sweep_reports_example :
    ((is_unreachable (LockAnswer.acquired true) && sample_config.locks_required ≡ true)
      × ((process_reconciliation sample_config
            (LockAnswer.acquired true)
            (λ ss. ss)
            5000
            unreachable
            none
            none
            submitted).0
          ≡ err lock_unavailable))
    ⊎ ((is_unreachable (LockAnswer.acquired true) && sample_config.locks_required ≡ false)
        × (results : List Reconciled) × ((process_reconciliation sample_config
              (LockAnswer.acquired true)
              (λ ss. ss)
              5000
              unreachable
              none
              none
              submitted).0
            ≡ ok results)
        × (length results ≡ (
            if not (is_acquired (LockAnswer.acquired true)) && sample_config.locks_required
            then 0
            else length (selected (λ ss. ss) none submitted))))
sweep_reports_example =
    sweep_reports sample_config (LockAnswer.acquired true) (λ ss. ss) 5000 unreachable none none
      submitted

-- A pool and a reservation of 400 USDC on it for the order 9.
abbrev reserved : World
reserved =
    perform_all sample_config
      (Call.open_pool Currency.usdc 0
        ∷ Call.reserve 1000 (record {
          pool_id = 0;
          order_id = 9;
          amount = finite (pos 4000000000);
          expiry_minutes = none;
        })
        ∷ [])
      empty_world

reserved-IsSound : IsSound reserved
reserved-IsSound = perform_all-IsSound sample_config _ empty_world empty-IsSound

-- The same with the settlement, whose reconciliation releases the reservation.
abbrev failing : World
failing = record reserved {
  tables = record (reserved.tables) { orders = order ∷ []; settlements = settlement ∷ [] };
}

failing-IsSound : IsSound failing
failing-IsSound = reserved-IsSound

abbrev reservation : Reservation
reservation = record {
  id = 1;
  pool_id = 0;
  order_id = 9;
  amount = pos 4000000000;
  status = ReservationStatus.reserved;
  expires_at = 901000;
}

abbrev pool : Pool
pool = record {
  id = 0;
  asset = Currency.usdc;
  network = 0;
  total_balance = pos 100000000000;
  reserved_balance = pos 4000000000;
  available_balance = pos 96000000000;
  min_threshold = pos 10000000000;
}

-- The same world, written out.
abbrev failing_rows : World
failing_rows = record empty_world {
  tables = record (empty_world.tables) {
    pools = pool ∷ [];
    reservations = reservation ∷ [];
    orders = order ∷ [];
    settlements = settlement ∷ [];
  };
}

failing-IsOpen : IsOpen settlement order reservation pool failing_rows
unfolding can_transition
failing-IsOpen = record {
  stored = (refl, refl);
  may_fail = allowed;
  order_row = refl;
  reserved = refl;
  reservation_row = refl;
  active = refl;
  pool_named = refl;
  pool_row = refl;
}
  where
    allowed : can_transition SettlementStatus.confirming SettlementStatus.failed ≡ true
    allowed = refl

exception_fails_settlement_example :
    let end = reconcile_single_settlement sample_config 5000 24 unreachable 6 failing_rows in
    (end.0 ≡ ok (outcome settlement SettlementStatus.failed true))
    × (find (λ x. x.id == 6) end.1.tables.settlements
        ≡ some (to_failed (or_text (some 21) failed_on_chain) settlement))
    × (find (λ x. x.id == 9) end.1.tables.orders ≡ some (order_failed order))
    × (find (λ x. x.id == 1) end.1.tables.reservations ≡ some (freed_row reservation))
exception_fails_settlement_example =
    exception_fails_settlement sample_config 5000 24 500 21 unreachable settlement order reservation
      pool failing_rows failing-IsOpen refl refl

reconciliation-IsSound_example :
    IsSound
      (process_reconciliation sample_config
        (LockAnswer.acquired true)
        (λ ss. ss)
        5000
        unreachable
        none
        none
        failing).1
reconciliation-IsSound_example =
    reconciliation-IsSound sample_config (LockAnswer.acquired true) (λ ss. ss) 5000 unreachable none
      none failing failing-IsSound

abbrev answer : Verified
answer = record {
  status = PaymentStatus.succeeded;
  amount = some (pos 6000000);
  currency = some Currency.ngn;
  provider_payment_id = none;
}

abbrev verify : ℕ → Option Verified
verify reference = some answer

abbrev paid : PaymentResult
paid = changed order 8 OrderStatus.payment_confirmed ActionTaken.confirmed_and_settled

is_paid : (reconcile_single_payment_order sample_config 5000 (λ n. n) verify 9 unpaid).0 ≡ ok paid
unfolding reconcile_single_payment_order reconcile_order reconcile_referenced apply_verification
    confirm_order mark_payment ensure_settlement confirm_reservation_in_tx confirm_found audit_log
is_paid = refl

confirmed-IsPaid_example : (o : Order) × (v : Verified) × IsPaid verify 9 unpaid o v
confirmed-IsPaid_example =
    confirmed-IsPaid sample_config 5000 (λ n. n) verify 9 unpaid paid is_paid refl

confirmed_unselected_example :
    let after = (reconcile_single_payment_order sample_config 5000 (λ n. n) verify 9 unpaid).1 in
    (o : Order) × (find (λ x. x.id == 9) after.tables.orders ≡ some o)
    × (o.status ≡ OrderStatus.payment_confirmed)
    × (is_eligible after.tables.settlements o ≡ false)
confirmed_unselected_example =
    confirmed_unselected sample_config 5000 (λ n. n) verify 9 unpaid paid is_paid refl
