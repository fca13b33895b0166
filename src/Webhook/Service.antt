-- ===== src/Webhook/Service.antt =====
-- `WebhookService.processWebhook` of modules/webhooks/webhooks.service.ts.
use luminarail_backend.Base.{
  ℕ, ⊤, Bool, true, false, not, ◌&&◌, ◌||◌, Option, none, some, same_id, ◌==◌, ◌===◌, if◌then◌else◌,
}
use luminarail_backend.Store.Status.{PaymentStatus, payment_status_enum}
use luminarail_backend.Store.Rows.{World, Payment, WebhookEvent, Actor, AuditAction}
use luminarail_backend.Store.Config.{Config}
use luminarail_backend.Store.Action.{
  Result, ok, err, Action, pure, modify, or_raise, raise_if, fresh, audit_log, ◌>>=◌, ◌>>◌,
  webhook_signature_invalid, provider_failed,
}
use luminarail_backend.Store.Table.{
  find_payment, update_many_payment, find_webhook_event, update_webhook_event, insert_webhook_event,
}
use luminarail_backend.Machine.Payment.{can_transition}
use luminarail_backend.Payment.Verify.{apply_outcome}

-- What the provider reads from the request's body.
pub record Event : Type 0 where
  pub event_id : ℕ
  pub event_type : ℕ
  pub provider_payment_id : Option ℕ
  pub status : PaymentStatus

-- The three answers.
pub data Receipt : Type 0 where
  processed already_processed being_processed : Receipt

abbrev pub is_event : ℕ → ℕ → WebhookEvent → Bool
is_event provider event_id e = e.provider == provider && e.event_id == event_id

-- The event has been claimed before.
unfoldable pub duplicate : WebhookEvent → Action Receipt
unfolding audit_log
duplicate existing =
    if existing.processed
    then audit_log Actor.system AuditAction.webhook_duplicate (some existing.id)
      >> pure already_processed
    else pure being_processed

-- How the transaction of the payment's update ends. A throw restores the tables that it writes; the
-- confirmation and the release of a reservation commit transactions of their own, which stay.
abbrev pub settle_outer : {A : Type 0} → World → Result A × World → Result A × World
settle_outer before (ok a, after) = (ok a, after)
settle_outer before (err e, after) = (
  err e,
  record after {
    tables = record (before.tables) {
      pools = after.tables.pools;
      reservations = after.tables.reservations;
      treasury = after.tables.treasury;
    };
  },
)

-- The body of the transaction of the payment's update. What it does to the reservation and the order is what
-- `verifyPayment` does; the rows of `providerTransaction` are left out.
unfoldable pub update_payment_in_tx : Config → Payment → PaymentStatus → Action ⊤
unfolding apply_outcome
update_payment_in_tx cfg payment status = do
  count ←
      update_many_payment (λ p. p.id == payment.id && p.status === payment.status)
        (λ p. record p { status = status })
  if count == 0 then pure tt else apply_outcome cfg payment.order_id status

-- `between` is what other processes commit before the transaction.
unfoldable pub update_found : Config → (World → World) → PaymentStatus → Option Payment → Action ⊤
unfolding update_payment_in_tx
update_found cfg between status none = pure tt
update_found cfg between status (some payment) =
    if can_transition payment.status status
    then modify between >> (λ w. settle_outer w (update_payment_in_tx cfg payment status w))
    else pure tt

unfoldable pub apply_event : Config → (World → World) → ℕ → PaymentStatus → Option ℕ → Action ⊤
unfolding update_found
apply_event cfg between provider status none = pure tt
apply_event cfg between provider status (some reference) = do
  payment ← find_payment (λ p.
      p.provider == provider
      && (same_id p.provider_payment_id reference || p.reference == reference))
  update_found cfg between status payment

-- The insert of the event's row claims it; a row that is there already breaks the unique constraint
-- and makes the request a duplicate.
unfoldable pub claim_event :
    Config → (World → World) → ℕ → Event → Option WebhookEvent → Action Receipt
unfolding duplicate apply_event audit_log
claim_event cfg between provider event (some existing) = duplicate existing
claim_event cfg between provider event none = do
  id ← fresh
  claimed ← insert_webhook_event (record {
    id = id;
    provider = provider;
    event_id = event.event_id;
    event_type = event.event_type;
    processed = false;
  })
  apply_event cfg between provider event.status event.provider_payment_id
  update_webhook_event claimed.id (λ e. record e { processed = true })
  audit_log Actor.system AuditAction.webhook_processed (some claimed.id)
  pure processed

-- `is_valid` is whether the provider accepts the signature, `parsed` what it reads from the body, or
-- none if that throws.
unfoldable pub process_webhook : Config → (World → World) → ℕ → Bool → Option Event → Action Receipt
unfolding claim_event audit_log
process_webhook cfg between provider is_valid parsed = do
  audit_log Actor.system AuditAction.webhook_received none
  raise_if (not is_valid) webhook_signature_invalid
  event ← or_raise parsed provider_failed
  existing ← find_webhook_event (is_event provider event.event_id)
  claim_event cfg between provider event existing
