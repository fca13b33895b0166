-- ===== src/Refund/Execute.antt =====
-- `RefundService.executeRefund` and its callers, of modules/refunds/refunds.service.ts.
use luminarail_backend.Base.{
  ℕ, Bool, true, false, ◌&&◌, Option, none, some, ◌==◌, ◌===◌, if◌then◌else◌, or_else, ⊤,
}
use luminarail_backend.Store.Status.{
  OrderStatus, PaymentStatus, RefundStatus, refund_status_enum, ReservationStatus,
}
use luminarail_backend.Store.Rows.{World, Order, Refund, Actor, AuditAction}
use luminarail_backend.Store.Config.{Config}
use luminarail_backend.Store.Action.{
  Action, pure, modify, or_raise, raise_if, recover, transaction, audit_log, ◌>>=◌, ◌>>◌,
  refund_not_found, refund_forbidden, lock_lost, provider_failed, record_missing,
}
use luminarail_backend.Store.Table.{
  find_order, find_refund, update_order, update_payment, update_refund, update_many_refund,
}
use luminarail_backend.Machine.Order
use luminarail_backend.Machine.Refund
use luminarail_backend.Lock.Guard.{LockAnswer, is_acquired, take_lock, finally_release}
use luminarail_backend.Liquidity.Payout.{release_reservation}
use luminarail_backend.Settlement.Service.{is_foreign}
use luminarail_backend.Refund.Create.{create_refund}

-- What the provider answers to `processRefund`.
pub record ProviderAnswer : Type 0 where
  pub status : RefundStatus
  pub provider_refund_id : ℕ
  pub failure_reason : Option ℕ

-- What happens around one call of `executeRefund`: how its distributed lock is answered for, and
-- whether an acquired one turns out to be lost at the two checks; what other processes commit before the conditional update and while the
-- provider works; the provider's answer, or none if its call throws.
pub record Surroundings : Type 0 where
  pub lock : LockAnswer
  pub lost_before : Bool
  pub lost_at_call : Bool
  pub between : World → World
  pub during : World → World
  pub provider : Refund → Option ProviderAnswer

-- The texts 'Provider rejected refund' and 'Ambiguous provider network response'.
abbrev pub rejected_text : ℕ
rejected_text = 1

abbrev pub ambiguous_text : ℕ
ambiguous_text = 2

abbrev pub refund_payment : Option ℕ → Action ⊤
refund_payment none = pure tt
refund_payment (some id) =
    update_payment id (λ p. record p { status = PaymentStatus.refunded }) >> pure tt

unfoldable pub succeed_in_tx : Refund → Order → ProviderAnswer → Action Refund
succeed_in_tx refund order answer = do
  updated ← update_refund refund.id (λ r. record r {
    status = RefundStatus.succeeded;
    provider_refund_id = some answer.provider_refund_id;
    ambiguous = false;
  })
  refund_payment refund.payment_id
  Order.validate_transition order.status OrderStatus.refunded
  update_order refund.order_id (λ o. record o { status = OrderStatus.refunded })
  pure updated

unfoldable pub fail_in_tx : Refund → Order → ProviderAnswer → Action Refund
fail_in_tx refund order answer = do
  updated ← update_refund refund.id (λ r. record r {
    status = RefundStatus.failed;
    failure_reason = some (or_else answer.failure_reason rejected_text);
    ambiguous = false;
  })
  Order.validate_transition order.status OrderStatus.refund_failed
  update_order refund.order_id (λ o. record o { status = OrderStatus.refund_failed })
  pure updated

unfoldable pub succeed : Config → Actor → Refund → Order → ProviderAnswer → Action Refund
unfolding succeed_in_tx audit_log
succeed cfg actor refund order answer = do
  final ← transaction (succeed_in_tx refund order answer)
  release_reservation cfg refund.order_id ReservationStatus.cancelled_released
  audit_log actor AuditAction.refund_succeeded (some final.id)
  pure final

unfoldable pub fail : Actor → Refund → Order → ProviderAnswer → Action Refund
unfolding fail_in_tx audit_log
fail actor refund order answer = do
  final ← transaction (fail_in_tx refund order answer)
  audit_log actor AuditAction.refund_failed (some final.id)
  pure final

unfoldable pub hold_ambiguous : Actor → Refund → ProviderAnswer → Action Refund
unfolding audit_log
hold_ambiguous actor refund answer = do
  held ← update_refund refund.id (λ r. record r {
    status = RefundStatus.processing;
    failure_reason = some (or_else answer.failure_reason ambiguous_text);
    ambiguous = true;
  })
  audit_log actor AuditAction.refund_processing_ambiguous (some held.id)
  pure held

unfoldable pub handle_answer : Config → Actor → Refund → Order → ProviderAnswer → Action Refund
unfolding succeed fail hold_ambiguous
handle_answer cfg actor refund order answer =
    if answer.status === RefundStatus.succeeded
    then succeed cfg actor refund order answer
    else if answer.status === RefundStatus.failed
    then fail actor refund order answer
    else hold_ambiguous actor refund answer

unfoldable pub call_provider : Config → Surroundings → Actor → Refund → Action Refund
unfolding handle_answer
call_provider cfg env actor refund = do
  found ← find_order (λ o. o.id == refund.order_id)
  order ← or_raise found record_missing
  raise_if (is_acquired env.lock && env.lost_at_call) lock_lost
  modify env.during
  answer ← or_raise (env.provider refund) provider_failed
  handle_answer cfg actor refund order answer

-- From the check of the lock on: the claim of the refund, then the provider.
unfoldable pub claim_and_call : Config → Surroundings → Actor → Refund → Action Refund
unfolding call_provider
claim_and_call cfg env actor refund = do
  raise_if (is_acquired env.lock && env.lost_before) lock_lost
  Refund.validate_transition refund.status RefundStatus.processing
  modify env.between
  count ←
      update_many_refund (λ r. r.id == refund.id && r.status === refund.status)
        (λ r. record r { status = RefundStatus.processing })
  found ← find_refund (λ r. r.id == refund.id)
  current ← or_raise found record_missing
  if count == 0 then pure current else call_provider cfg env actor current

-- The `try` block of `executeRefund`.
unfoldable pub execute_in_try : Config → Surroundings → ℕ → Actor → Action Refund
unfolding claim_and_call
execute_in_try cfg env refund_id actor = do
  found ← find_refund (λ r. r.id == refund_id)
  refund ← or_raise found refund_not_found
  if Refund.is_terminal refund.status
      then pure refund
      else if refund.status === RefundStatus.processing && refund.ambiguous
      then pure refund
      else claim_and_call cfg env actor refund

-- The lock is asked for before the `try` block, which is run also without it.
unfoldable pub execute_refund : Config → Surroundings → ℕ → Actor → Action Refund
unfolding take_lock finally_release execute_in_try
execute_refund cfg env refund_id actor =
    take_lock cfg env.lock >> finally_release env.lock (execute_in_try cfg env refund_id actor)

pub record AutomaticParams : Type 0 where
  pub order_id : ℕ
  pub payment_id : Option ℕ
  pub reason : ℕ
  pub actor : Option Actor

-- The `try` block of `processAutomaticRefund`; `auto_key` is the key AUTO_REF_<order>_<payment>.
unfoldable pub create_and_execute :
    Config → Surroundings → ℕ → AutomaticParams → Option Order → Action (Option Refund)
unfolding create_refund execute_refund
create_and_execute cfg env auto_key params none = pure none
create_and_execute cfg env auto_key params (some order) = do
  created ←
      create_refund auto_key order.user_id
        (record {
          order_id = params.order_id;
          payment_id = params.payment_id;
          amount = none;
          reason = params.reason;
          idempotency_key = some auto_key;
        })
        true (some auto_key)
  executed ← execute_refund cfg env created.refund.id (or_else params.actor Actor.system)
  pure (some executed)

unfoldable pub log_trigger_error : AutomaticParams → Action (Option Refund)
unfolding audit_log
log_trigger_error params = do
  audit_log (or_else params.actor Actor.system) AuditAction.automatic_refund_trigger_error
      (some params.order_id)
  pure none

unfoldable pub process_automatic_refund :
    Config → Surroundings → ℕ → AutomaticParams → Action (Option Refund)
unfolding create_and_execute log_trigger_error
process_automatic_refund cfg env auto_key params =
    recover
      (find_order (λ o. o.id == params.order_id) >>= create_and_execute cfg env auto_key params)
      (log_trigger_error params)

unfoldable pub get_refund_by_id : ℕ → Option ℕ → Bool → Action Refund
get_refund_by_id refund_id user_id is_admin = do
  found ← find_refund (λ r. r.id == refund_id)
  refund ← or_raise found refund_not_found
  raise_if (is_foreign is_admin user_id refund.user_id) refund_forbidden
  pure refund
