-- ===== src/Webhook/Events.antt =====
-- What handling a webhook leaves of the claimed events.
use luminarail_backend.Base.{
  ⊤, find, ap, ℕ, true, false, ◌≡◌, refl, ◌∙◌, Bool, Option, none, some, ◌==◌, ◌===◌, ◌&&◌, ◌||◌,
  same_id, if◌then◌else◌, arith,
}
use luminarail_backend.Store.Status.{PaymentStatus, payment_status_enum, ReservationStatus}
use luminarail_backend.Store.Rows.{World, Order, Payment, WebhookEvent}
use luminarail_backend.Store.Config.{Config}
use luminarail_backend.Store.Action.{Action, Result, ok, err, modify, pure, ◌>>=◌, ◌>>◌}
use luminarail_backend.Store.Table.{find_order, find_payment, update_many_payment}
use luminarail_backend.Machine.Payment.{can_transition}
use luminarail_backend.Liquidity.Service.{
  confirm_reservation, confirm_reservation_in_tx, confirm_found,
}
use luminarail_backend.Liquidity.Payout.{
  release_reservation, release_reservation_in_tx, release_found, release_locked,
}
use luminarail_backend.Liquidity.Telemetry.{evaluate_pool_balance}
use luminarail_backend.Payment.Verify.{apply_outcome, advance_order, fail_order}
use luminarail_backend.Webhook.Service.{
  settle_outer, is_event, update_payment_in_tx, update_found, apply_event,
}

-- The action leaves the claimed events as they are.
abbrev pub KeepsEvents : {A : Type 0} → Action A → Type 0
KeepsEvents m = (w : World) → (m w).1.tables.webhook_events ≡ w.tables.webhook_events

confirm-keeps : (k : ℕ) → KeepsEvents (confirm_reservation k)
unfolding confirm_reservation confirm_reservation_in_tx confirm_found
confirm-keeps k w = ground arith

release-keeps :
    (cfg : Config) (k : ℕ) (status : ReservationStatus)
    → KeepsEvents (release_reservation cfg k status)
unfolding release_reservation release_reservation_in_tx release_found release_locked
    evaluate_pool_balance
release-keeps cfg k status w = ground arith

advance-keeps : (o : Option Order) → KeepsEvents (advance_order o)
unfolding advance_order
advance-keeps none w = refl
advance-keeps (some o) w = ground arith

fail-keeps : (o : Option Order) → KeepsEvents (fail_order o)
unfolding fail_order
fail-keeps none w = refl
fail-keeps (some o) w = ground arith

end-keeps :
    {A B : Type 0} (end : Result A × World) (f : A → Action B)
    → ((a : A) → KeepsEvents (f a))
    → (((λ (_ : World). end) >>= f) end.1).1.tables.webhook_events ≡ end.1.tables.webhook_events
end-keeps (ok a, w) f rest = rest a w
end-keeps (err e, w) f rest = refl

pub bind-keeps :
    {A B : Type 0} (m : Action A) (f : A → Action B)
    → KeepsEvents m
    → ((a : A) → KeepsEvents (f a))
    → KeepsEvents (m >>= f)
bind-keeps m f first rest w = end-keeps (m w) f rest ∙ first w

if-keeps :
    {A : Type 0} (c : Bool) (m k : Action A)
    → KeepsEvents m
    → KeepsEvents k
    → KeepsEvents (if c then m else k)
if-keeps true m k first second = first
if-keeps false m k first second = second

outcome-keeps :
    (cfg : Config) (k : ℕ) (status : PaymentStatus) → KeepsEvents (apply_outcome cfg k status)
unfolding apply_outcome
outcome-keeps cfg k status =
    let look : Action (Option Order) = find_order (λ o. o.id == k) in
    let release = release_reservation cfg k ReservationStatus.cancelled_released in
    if-keeps (status === PaymentStatus.succeeded) (confirm_reservation k >> look >>= advance_order)
      (if status === PaymentStatus.failed then release >> look >>= fail_order else pure tt)
      (bind-keeps (confirm_reservation k >> look) advance_order
        (bind-keeps (confirm_reservation k) (λ _. look) (confirm-keeps k) (λ a w. refl))
        advance-keeps)
      (if-keeps (status === PaymentStatus.failed) (release >> look >>= fail_order) (pure tt)
        (bind-keeps (release >> look) fail_order
          (bind-keeps release (λ _. look) (release-keeps cfg k ReservationStatus.cancelled_released)
            (λ a w. refl))
          fail-keeps)
        (λ w. refl))

settle-keeps :
    {A : Type 0} (before : World) (end : Result A × World)
    → end.1.tables.webhook_events ≡ before.tables.webhook_events
    → (settle_outer before end).1.tables.webhook_events ≡ before.tables.webhook_events
settle-keeps before (ok a, after) h = h
settle-keeps before (err e, after) h = refl

update-keeps :
    (cfg : Config) (p : Payment) (status : PaymentStatus)
    → KeepsEvents (update_payment_in_tx cfg p status)
unfolding update_payment_in_tx
update-keeps cfg p status =
    let claim : Action ℕ =
      update_many_payment (λ x. x.id == p.id && x.status === p.status)
        (λ x. record x { status = status }) in
    bind-keeps claim (λ count. if count == 0 then pure tt else apply_outcome cfg p.order_id status)
      (λ w. refl)
      (λ count.
        if-keeps (count == 0) (pure tt) (apply_outcome cfg p.order_id status) (λ w. refl)
          (outcome-keeps cfg p.order_id status))

module _ (provider event_id : ℕ) where
  -- The event has a row.
  abbrev pub Known : World → Type 0
  Known w =
      (e : WebhookEvent) × (find (is_event provider event_id) w.tables.webhook_events ≡ some e)

  abbrev pub KeepsKnown : {A : Type 0} → Action A → Type 0
  KeepsKnown m = (w : World) → Known w → Known (m w).1

  Known-untouched : {A : Type 0} (m : Action A) → KeepsEvents m → KeepsKnown m
  Known-untouched m same w (e, found) = (e, ap (find (is_event provider event_id)) (same w) ∙ found)

  end-Known :
      {A B : Type 0} (end : Result A × World) (f : A → Action B)
      → Known end.1
      → ((a : A) → KeepsKnown (f a))
      → Known (((λ (_ : World). end) >>= f) end.1).1
  end-Known (ok a, w) f h rest = rest a w h
  end-Known (err e, w) f h rest = h

  pub bind-Known :
      {A B : Type 0} (m : Action A) (f : A → Action B)
      → KeepsKnown m
      → ((a : A) → KeepsKnown (f a))
      → KeepsKnown (m >>= f)
  bind-Known m f first rest w h = end-Known (m w) f (first w h) rest

  -- Other processes do not remove the event's row.
  abbrev pub KeepsRow : (World → World) → Type 0
  KeepsRow between = (w : World) → Known w → Known (between w)

  if-Known :
      {A : Type 0} (c : Bool) (m k : Action A)
      → KeepsKnown m
      → KeepsKnown k
      → KeepsKnown (if c then m else k)
  if-Known true m k first second = first
  if-Known false m k first second = second

  found-Known :
      (cfg : Config) (between : World → World) (status : PaymentStatus) (o : Option Payment)
      → KeepsRow between
      → KeepsKnown (update_found cfg between status o)
  unfolding update_found
  found-Known cfg between status none leaves = λ w h. h
  found-Known cfg between status (some p) leaves =
      let m : Action ⊤ = λ w. settle_outer w (update_payment_in_tx cfg p status w) in
      if-Known (can_transition p.status status) (modify between >> m) (pure tt)
        (bind-Known (modify between) (λ _. m) leaves
          (λ u. Known-untouched m (λ w.
            settle-keeps w (update_payment_in_tx cfg p status w) (update-keeps cfg p status w))))
        (λ w h. h)

  pub event-Known :
      (cfg : Config) (between : World → World) (status : PaymentStatus) (reference : Option ℕ)
      → KeepsRow between
      → KeepsKnown (apply_event cfg between provider status reference)
  unfolding apply_event
  event-Known cfg between status none leaves = λ w h. h
  event-Known cfg between status (some reference) leaves =
      let look : Action (Option Payment) = find_payment (λ p.
        p.provider == provider
        && (same_id p.provider_payment_id reference || p.reference == reference)) in
      bind-Known look (update_found cfg between status) (λ w h. h)
        (λ o. found-Known cfg between status o leaves)
