-- ===== src/Quote/Service.antt =====
-- `QuoteService` of modules/quotes/quotes.service.ts: a quote's expiry and use.
use luminarail_backend.Base.{ℕ, ◌&&◌, ◌||◌, Option, none, some, ltb, ◌==◌, ◌===◌, if◌then◌else◌}
use luminarail_backend.Store.Status.{QuoteStatus, quote_status_enum}
use luminarail_backend.Store.Rows.{Quote}
use luminarail_backend.Store.Action.{
  Error, Action, pure, or_raise, throw_any, ◌>>=◌, ◌>>◌, quote_not_found, quote_expired, quote_used,
  quote_cancelled,
}
use luminarail_backend.Store.Table.{find_quote, update_quote}

unfoldable pub get_quote_by_id : ℕ → ℕ → Action Quote
get_quote_by_id now quote_id = do
  found ← find_quote (λ q. q.id == quote_id)
  quote ← or_raise found quote_not_found
  if quote.status === QuoteStatus.active && ltb quote.expires_at now
      then update_quote quote_id (λ q. record q { status = QuoteStatus.expired })
      else pure quote

-- What `validateAndUseQuote` throws for a quote.
abbrev pub use_refusal : ℕ → Quote → Option Error
use_refusal now quote =
    if quote.status === QuoteStatus.expired || ltb quote.expires_at now
    then some quote_expired
    else if quote.status === QuoteStatus.used
    then some quote_used
    else if quote.status === QuoteStatus.cancelled
    then some quote_cancelled
    else none

unfoldable pub validate_and_use_quote : ℕ → ℕ → Action Quote
unfolding get_quote_by_id
validate_and_use_quote now quote_id = do
  quote ← get_quote_by_id now quote_id
  throw_any (use_refusal now quote)
  update_quote quote_id (λ q. record q { status = QuoteStatus.used })
