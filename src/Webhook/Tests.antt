-- ===== src/Webhook/Tests.antt =====
-- An instance of the theorem on webhooks: a payment's success is delivered twice.
use luminarail_backend.Base.{◌≡◌, refl, true, some, find, if◌then◌else◌}
use luminarail_backend.Store.Status.{PaymentStatus}
use luminarail_backend.Store.Rows.{WebhookEvent}
use luminarail_backend.Store.Sample.{empty_world, sample_config}
use luminarail_backend.Store.Action.{ok}
use luminarail_backend.Webhook.Service.{
  Event, is_event, process_webhook, already_processed, being_processed,
}
use luminarail_backend.Webhook.Once.{delivered_once}

abbrev event : Event
event = record {
  event_id = 70;
  event_type = 1;
  provider_payment_id = some 8;
  status = PaymentStatus.succeeded;
}

delivered_once_example :
    let after = (process_webhook sample_config (λ w. w) 3 true (some event) empty_world).1 in
    let again = process_webhook sample_config (λ w. w) 3 true (some event) after in
    (again.1.tables ≡ after.tables)
    × (e : WebhookEvent) × (find (is_event 3 70) after.tables.webhook_events ≡ some e)
    × (again.0 ≡ ok (if e.processed then already_processed else being_processed))
delivered_once_example =
    delivered_once sample_config (λ w. w) (λ w. w) 3 event event empty_world (λ w h. h) refl
