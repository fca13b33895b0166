-- ===== src/Webhook/Once.antt =====
-- A webhook's event is handled at most once.
use luminarail_backend.Base.{
  ℕ, suc, find-append_last, true, false, ◌≡◌, refl, ap, ◌∙◌, Bool, Option, none, some, List, [],
  ◌∷◌, ◌++◌, find, update, ◌==◌, if◌then◌else◌, arith, Bool-cases, Option-cases, inl, inr,
}
use luminarail_backend.Store.Status.{payment_status_enum}
use luminarail_backend.Store.Rows.{World, WebhookEvent, Actor, AuditAction}
use luminarail_backend.Store.Config.{Config}
use luminarail_backend.Store.Action.{Action, ok, pure, audit_log, ◌>>=◌, ◌>>◌}
use luminarail_backend.Store.Table.{update_webhook_event, set_webhook_events}
use luminarail_backend.Webhook.Service.{
  Event, Receipt, is_event, duplicate, apply_event, claim_event, process_webhook, processed,
  already_processed, being_processed,
}
use luminarail_backend.Webhook.Events.{Known, KeepsKnown, KeepsRow, bind-Known, event-Known}

module _ (provider event_id : ℕ) where
  find-update_Known :
      (k : ℕ) (f : WebhookEvent → WebhookEvent) (xs : List WebhookEvent) {e : WebhookEvent}
      → ((x : WebhookEvent) → is_event provider event_id (f x) ≡ is_event provider event_id x)
      → find (is_event provider event_id) xs ≡ some e
      → (e' : WebhookEvent) × (find (is_event provider event_id) (update (λ x. x.id == k) f xs)
          ≡ some e')
  find-update_Known k f [] same h = absurd (cc)
  find-update_Known k f (x ∷ xs) {e} same h = elim (Bool-cases (x.id == k)) [
    | inl hit ↦ elim (Bool-cases (is_event provider event_id x)) [
      | inl this ↦ (f x, rw hit (rw (same x ∙ this) refl))
      | inr other ↦ (e, rw hit (rw (same x ∙ other) (rw other at h)))
    ]
    | inr miss ↦ elim (Bool-cases (is_event provider event_id x)) [
      | inl this ↦ (x, rw miss (rw this refl))
      | inr other ↦
          let (e', later) = find-update_Known k f xs same (rw other at h) in
          (e', rw miss (rw other later))
    ]
  ]

  update-Known :
      (k : ℕ)
      → KeepsKnown provider event_id (update_webhook_event k (λ e. record e { processed = true }))
  update-Known k w h = elim (Option-cases (find (λ x. x.id == k) w.tables.webhook_events)) [
    | inl missing ↦ rw (update_webhook_event, missing) h
    | inr (x, found) ↦
        rw (update_webhook_event, found)
          (find-update_Known k (λ e. record e { processed = true }) w.tables.webhook_events
            (λ y. refl) h.1)
  ]

module _ (cfg : Config) (between : World → World) (provider : ℕ) (event : Event)
    (leaves : KeepsRow provider event.event_id between) where
  abbrev is_this : WebhookEvent → Bool
  is_this = is_event provider event.event_id

  -- The row as it is first inserted.
  abbrev fresh_row : ℕ → WebhookEvent
  fresh_row id = record {
    id = id;
    provider = provider;
    event_id = event.event_id;
    event_type = event.event_type;
    processed = false;
  }

  -- What follows the insert.
  abbrev handle : WebhookEvent → Action Receipt
  handle claimed =
      apply_event cfg between provider event.status event.provider_payment_id
      >> (update_webhook_event claimed.id (λ e. record e { processed = true })
          >> (audit_log Actor.system AuditAction.webhook_processed (some claimed.id)
              >> pure processed))

  handle-Known : (row : WebhookEvent) → KeepsKnown provider event.event_id (handle row)
  unfolding audit_log
  handle-Known row =
      let step = apply_event cfg between provider event.status event.provider_payment_id in
      let mark : Action WebhookEvent =
        update_webhook_event row.id (λ e. record e { processed = true }) in
      let last : Action Receipt =
        audit_log Actor.system AuditAction.webhook_processed (some row.id) >> pure processed in
      bind-Known provider event.event_id step (λ _. mark >> last)
        (event-Known provider event.event_id cfg between event.status event.provider_payment_id
          leaves)
        (λ u.
          bind-Known provider event.event_id mark (λ _. last)
            (update-Known provider event.event_id row.id) (λ e w h. h))

  own : (id : ℕ) → is_this (fresh_row id) ≡ true
  own id = ground arith

  claim-Known :
      (o : Option WebhookEvent) (w : World)
      → find is_this w.tables.webhook_events ≡ o
      → Known provider event.event_id (claim_event cfg between provider event o w).1
  unfolding claim_event duplicate audit_log
  claim-Known (some e) w found = elim (Bool-cases e.processed) [
    | inl over ↦ rw over (e, found)
    | inr open_yet ↦ rw open_yet (e, found)
  ]
  claim-Known none w missing =
      let row = fresh_row w.next_id in
      let v : World = record (set_webhook_events (w.tables.webhook_events ++ row ∷ []) w) {
        next_id = suc w.next_id;
      } in
      handle-Known row v
        (row, find-append_last is_this row w.tables.webhook_events missing (own w.next_id))

  first-Known :
      (w : World)
      → Known provider event.event_id (process_webhook cfg between provider true (some event) w).1
  unfolding process_webhook audit_log
  first-Known w = claim-Known (find is_this w.tables.webhook_events) _ refl

duplicate-reads :
    (e : WebhookEvent) (w : World)
    → ((duplicate e w).1.tables ≡ w.tables)
      × ((duplicate e w).0 ≡ ok (if e.processed then already_processed else being_processed))
unfolding duplicate audit_log
duplicate-reads e w = elim (Bool-cases e.processed) [
  | inl over ↦ rw over (refl, refl)
  | inr open_yet ↦ rw open_yet (refl, refl)
]

replayed :
    (cfg : Config) (between : World → World) (provider : ℕ) (event : Event) (e : WebhookEvent)
    (w : World)
    → find (is_event provider event.event_id) w.tables.webhook_events ≡ some e
    → ((process_webhook cfg between provider true (some event) w).1.tables ≡ w.tables)
      × ((process_webhook cfg between provider true (some event) w).0
          ≡ ok (if e.processed then already_processed else being_processed))
unfolding process_webhook claim_event audit_log
replayed cfg between provider event e w found = rw (◌>>=◌, found) (duplicate-reads e _)

-- After the delivery of an event with a valid signature, also one whose handling has thrown, a delivery
-- of the same provider and event id, whatever else it says, changes no table, and is answered as
-- already processed or as being processed. What other processes commit while the first
-- delivery is handled may insert and change events, but not remove the row of this one.
pub delivered_once :
    (cfg : Config) (between between' : World → World) (provider : ℕ) (event event' : Event)
    (w : World)
    → KeepsRow provider event.event_id between
    → event'.event_id ≡ event.event_id
    → let after = (process_webhook cfg between provider true (some event) w).1 in
      let again = process_webhook cfg between' provider true (some event') after in
      (again.1.tables ≡ after.tables)
      × (e : WebhookEvent) × (find (is_event provider event'.event_id) after.tables.webhook_events
          ≡ some e)
      × (again.0 ≡ ok (if e.processed then already_processed else being_processed))
delivered_once cfg between between' provider event event' w leaves same =
    let after = (process_webhook cfg between provider true (some event) w).1 in
    let (e, known) = first-Known cfg between provider event leaves w in
    let found : find (is_event provider event'.event_id) after.tables.webhook_events ≡ some e =
      ap (λ k. find (is_event provider k) after.tables.webhook_events) same ∙ known in
    let (kept, answer) = replayed cfg between' provider event' e after found in
    (kept, e, found, answer)
