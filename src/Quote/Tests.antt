-- ===== src/Quote/Tests.antt =====
-- An instance of the theorem on quotes.
use luminarail_backend.Base.{◌≡◌, refl, false, some, [], ◌∷◌, find, ltb, ◌==◌}
use luminarail_backend.Int.{pos}
use luminarail_backend.Store.Status.{QuoteStatus, Currency}
use luminarail_backend.Store.Rows.{World, Quote}
use luminarail_backend.Store.Action.{Error, ok, err}
use luminarail_backend.Store.Sample.{empty_world}
use luminarail_backend.Quote.Service.{get_quote_by_id, validate_and_use_quote}
use luminarail_backend.Quote.Once.{quote_used_once}

abbrev quote : Quote
quote = record {
  id = 2;
  source_currency = Currency.ngn;
  destination_asset = Currency.usdc;
  source_amount = pos 6000000;
  destination_amount = pos 4000000;
  status = QuoteStatus.active;
  expires_at = 301000;
}

abbrev quoted : World
quoted = record empty_world { tables = record (empty_world.tables) { quotes = quote ∷ [] } }

abbrev used_quote : Quote
used_quote = record quote { status = QuoteStatus.used }

uses : (validate_and_use_quote 2000 2 quoted).0 ≡ ok used_quote
unfolding validate_and_use_quote get_quote_by_id
uses = refl

quote_used_once_example :
    let after = (validate_and_use_quote 2000 2 quoted).1 in
    ((x : Quote) × (find (λ y. y.id == 2) quoted.tables.quotes ≡ some x)
      × (x.status ≡ QuoteStatus.active)
      × (ltb x.expires_at 2000 ≡ false)
      × (used_quote ≡ record x { status = QuoteStatus.used }))
    × ((e : Error) × (validate_and_use_quote 3000 2 after ≡ (err e, after)))
quote_used_once_example = quote_used_once 2000 3000 2 quoted used_quote uses
