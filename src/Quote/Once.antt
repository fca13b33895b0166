-- ===== src/Quote/Once.antt =====
-- A quote is used once.
use luminarail_backend.Base.{
  ℕ, false, ◌≡◌, refl, some, find, update, ltb, ◌==◌, arith, Option-cases, Bool-cases, inl, inr,
  find-update_same,
}
use luminarail_backend.Store.Status.{QuoteStatus, quote_status_enum}
use luminarail_backend.Store.Rows.{World, Quote}
use luminarail_backend.Store.Action.{Error, ok, err, quote_expired, quote_used}
use luminarail_backend.Quote.Service.{get_quote_by_id, validate_and_use_quote}

module _ (now k : ℕ) (w : World) (q : Quote)
    (used : (validate_and_use_quote now k w).0 ≡ ok q) where
  quote_of : (x : Quote) × (find (λ y. y.id == k) w.tables.quotes ≡ some x)
  unfolding validate_and_use_quote get_quote_by_id
  quote_of = elim (Option-cases (find (λ y. y.id == k) w.tables.quotes)) [
    | inl missing ↦ absurd (ground arith)
    | inr found ↦ found
  ]

  module _ (x : Quote) (found : find (λ y. y.id == k) w.tables.quotes ≡ some x) where
    was_usable : (x.status ≡ QuoteStatus.active) × (ltb x.expires_at now ≡ false)
    unfolding validate_and_use_quote get_quote_by_id
    was_usable = ground arith

    rows :
        (q ≡ record x { status = QuoteStatus.used })
        × ((validate_and_use_quote now k w).1.tables.quotes
            ≡ update (λ y. y.id == k) (λ y. record y { status = QuoteStatus.used }) w.tables.quotes)
    unfolding validate_and_use_quote get_quote_by_id
    rows = ground arith

used_refused :
    (now k : ℕ) (w : World) (q : Quote)
    → find (λ y. y.id == k) w.tables.quotes ≡ some q
    → q.status ≡ QuoteStatus.used
    → (e : Error) × (validate_and_use_quote now k w ≡ (err e, w))
unfolding validate_and_use_quote get_quote_by_id
used_refused now k w q found used = elim (Bool-cases (ltb q.expires_at now)) [
  | inl late ↦ (quote_expired, ground arith)
  | inr early ↦ (quote_used, ground arith)
]

-- `validateAndUseQuote` succeeds only for a quote that is ACTIVE and not past its expiry, and returns
-- it with the status USED; after that, using the quote again, at whatever time, throws and changes
-- nothing.
pub quote_used_once :
    (now later k : ℕ) (w : World) (q : Quote)
    → (validate_and_use_quote now k w).0 ≡ ok q
    → let after = (validate_and_use_quote now k w).1 in
      ((x : Quote) × (find (λ y. y.id == k) w.tables.quotes ≡ some x)
        × (x.status ≡ QuoteStatus.active)
        × (ltb x.expires_at now ≡ false)
        × (q ≡ record x { status = QuoteStatus.used }))
      × ((e : Error) × (validate_and_use_quote later k after ≡ (err e, after)))
quote_used_once now later k w q used =
    let (x, found) = quote_of now k w q used in
    let (active, fresh) = was_usable now k w q used x found in
    let (same, table) = rows now k w q used x found in
    let row : find (λ y. y.id == k) (validate_and_use_quote now k w).1.tables.quotes ≡ some q =
      rw table (
        rw same (
          find-update_same (λ (y : Quote). y.id) k (λ y. record y { status = QuoteStatus.used })
            w.tables.quotes x found refl)) in
    (
      (x, found, active, fresh, same),
      used_refused later k (validate_and_use_quote now k w).1 q row (rw same refl),
    )
