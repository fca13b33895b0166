-- ===== src/Refund/Tests.antt =====
-- Instances of the theorems on refunds: an order whose only payment failed, and a late refusal.
use luminarail_backend.Base.{
  ◌≡◌, refl, true, false, none, some, [], ◌∷◌, find, ◌==◌, ◌&&◌, if◌then◌else◌, arith,
}
use luminarail_backend.Int.{pos, ◌+ℤ◌, ◌-ℤ◌}
use luminarail_backend.Store.Status.{OrderStatus, PaymentStatus, RefundStatus, OrderType, Currency}
use luminarail_backend.Store.Rows.{World, Order, Payment, Refund, Actor}
use luminarail_backend.Store.Action.{
  ok, err, invalid_order_transition, audit_log, lock_unavailable, provider_failed, or_raise, ◌>>=◌,
}
use luminarail_backend.Store.Sample.{empty_world, sample_config}
use luminarail_backend.Machine.Order
use luminarail_backend.Refund.Create.{
  RefundInput, CreatedRefund, locate_payment, sum_amounts, refundable, checked_amount, rounded,
  insert_new, insert_unless_known, order_refusal, create_refund_in_tx, create_refund,
}
use luminarail_backend.Refund.Execute.{
  ProviderAnswer, Surroundings, hold_ambiguous, handle_answer, execute_refund,
}
use luminarail_backend.Refund.Bound.{IsCovered, create_refund-IsCovered}
use luminarail_backend.Refund.Uncaptured.{failed_payment_refunded}
use luminarail_backend.Refund.Retry.{unsuccessful_not_resent}
use luminarail_backend.Refund.Refused.{refusal_not_recorded, taken_lock_ignored}
use luminarail_backend.Lock.Guard.{LockAnswer, is_unreachable}

abbrev order : Order
order = record {
  id = 9;
  user_id = 4;
  quote_id = 2;
  idempotency_key = none;
  type = OrderType.on_ramp;
  status = OrderStatus.failed;
  source_currency = Currency.ngn;
  destination_asset = Currency.usdc;
  source_amount = pos 6000000;
  destination_amount = pos 4000000;
  wallet_address = none;
  created_at = 1000;
}

abbrev payment : Payment
payment = record {
  id = 5;
  order_id = 9;
  user_id = 4;
  provider = 0;
  provider_payment_id = none;
  amount = pos 6000000;
  platform_fee = pos 60000;
  net_amount = pos 5940000;
  currency = Currency.ngn;
  status = PaymentStatus.failed;
  reference = 31;
  idempotency_key = none;
  created_at = 1100;
}

abbrev unpaid : World
unpaid = record empty_world {
  tables = record (empty_world.tables) { orders = order ∷ []; payments = payment ∷ [] };
}

abbrev request : RefundInput
request = record {
  order_id = 9;
  payment_id = none;
  amount = none;
  reason = 3;
  idempotency_key = none;
}

abbrev refund : Refund
refund = record {
  id = 0;
  order_id = 9;
  payment_id = some 5;
  user_id = 4;
  amount = pos 6000000;
  currency = Currency.ngn;
  reason = 3;
  status = RefundStatus.pending;
  idempotency_key = 8;
  provider_refund_id = none;
  failure_reason = none;
  ambiguous = false;
}

abbrev created : CreatedRefund
created = record { refund = refund; is_duplicate = false }

creates : (create_refund 8 4 request false none unpaid).0 ≡ ok created
unfolding create_refund create_refund_in_tx order_refusal locate_payment insert_unless_known
    insert_new refundable checked_amount rounded sum_amounts audit_log Order.can_transition ◌+ℤ◌
    ◌-ℤ◌
creates = refl

create_refund-IsCovered_example :
    (o : Order) × (p : Payment) × IsCovered 4 request false unpaid
      (create_refund 8 4 request false none unpaid).1
      o
      p
      refund
create_refund-IsCovered_example =
    create_refund-IsCovered 8 4 request false none unpaid created creates refl

failed_payment_refunded_example :
    (c : CreatedRefund) × ((create_refund 8 4 request false none unpaid).0 ≡ ok c)
    × (c.is_duplicate ≡ false)
    × (c.refund.payment_id ≡ some 5)
    × (c.refund.amount ≡ pos 6000000)
failed_payment_refunded_example =
    failed_payment_refunded 8 4 3 unpaid order payment refl refl refl refl refl (omega arith) refl
      refl refl

-- The first of two partial refunds has succeeded, and the second is being executed.
abbrev refunded_order : Order
refunded_order = record order { status = OrderStatus.refunded }

abbrev processing : Refund
processing = record refund { status = RefundStatus.processing; amount = pos 1000000 }

abbrev partly : World
partly = record empty_world {
  tables = record (empty_world.tables) { orders = refunded_order ∷ []; refunds = processing ∷ [] };
}

abbrev refusal : ProviderAnswer
refusal = record { status = RefundStatus.failed; provider_refund_id = 0; failure_reason = none }

abbrev silence : ProviderAnswer
silence = record { status = RefundStatus.processing; provider_refund_id = 0; failure_reason = none }

abbrev calm : Surroundings
calm = record {
  lock = LockAnswer.acquired true;
  lost_before = false;
  lost_at_call = false;
  between = λ w. w;
  during = λ w. w;
  provider = λ _. some refusal;
}

abbrev held : Refund
held = record processing { ambiguous = true; failure_reason = some 2 }

holds : (handle_answer sample_config Actor.system processing order silence partly).0 ≡ ok held
unfolding handle_answer hold_ambiguous audit_log
holds = refl

unsuccessful_not_resent_example :
    let after = (handle_answer sample_config Actor.system processing order silence partly).1 in
    let end = execute_refund sample_config calm 0 Actor.system after in
    (end.0 ≡ (
      if is_unreachable calm.lock && sample_config.locks_required
      then err lock_unavailable
      else ok held))
    × (record (end.1) { audit = after.audit } ≡ after)
unsuccessful_not_resent_example =
    unsuccessful_not_resent sample_config Actor.system Actor.system calm processing held order
      silence partly refl holds

refusal_not_recorded_example :
    (handle_answer sample_config Actor.system processing refunded_order refusal partly
      ≡ (err invalid_order_transition, partly))
    × (v : World) × (find (λ x. x.id == 0) v.tables.refunds ≡ some processing)
    × ((execute_refund sample_config calm 0 Actor.system partly).0
        ≡ ((or_raise (calm.provider processing) provider_failed
              >>= handle_answer sample_config Actor.system processing refunded_order)
            v).0)
refusal_not_recorded_example =
    refusal_not_recorded sample_config Actor.system Actor.system calm processing refunded_order
      refusal partly refl refl refl refl refl refl refl refl refl (λ v. refl) (λ v. refl)

-- Another process holds the lock and has made the refund PROCESSING.
abbrev contended : Surroundings
contended = record calm { lock = LockAnswer.taken }

taken_lock_ignored_example :
    (v : World) × (find (λ x. x.id == 0) v.tables.refunds ≡ some processing)
    × ((execute_refund sample_config contended 0 Actor.system partly).0
        ≡ ((or_raise (contended.provider processing) provider_failed
              >>= handle_answer sample_config Actor.system processing refunded_order)
            v).0)
taken_lock_ignored_example =
    taken_lock_ignored sample_config Actor.system contended processing refunded_order partly refl
      refl refl refl refl (λ v. refl) (λ v. refl)
