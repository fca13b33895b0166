-- ===== src/Order/Service.antt =====
-- `OrderService` of modules/orders/orders.service.ts.
use luminarail_backend.Base.{
  ℕ, Bool, true, false, ◌&&◌, ◌||◌, not, Option, none, some, [], ◌∷◌, any, ltb, ◌==◌, ◌===◌,
  same_id, or_else, if◌then◌else◌,
}
use luminarail_backend.Int.{ℤ, lt, finite}
use luminarail_backend.Store.Status.{
  OrderStatus, order_status_enum, PaymentStatus, payment_status_enum, QuoteStatus,
  quote_status_enum, OrderType, order_type_enum, TransactionType, Text,
}
use luminarail_backend.Store.Rows.{Order, Pool, Quote, Actor, AuditAction}
use luminarail_backend.Store.Config.{Config}
use luminarail_backend.Store.Action.{
  Error, Action, pure, gets, or_raise, raise_if, throw_any, fresh, audit_log, transaction, ◌>>=◌,
  ◌>>◌, quote_used, quote_cancelled, quote_expired, insufficient_liquidity, order_not_found,
  order_forbidden, unique_violation,
}
use luminarail_backend.Store.Table.{
  find_order, update_order, insert_order, update_quote, insert_transaction,
}
use luminarail_backend.Quote.Service.{get_quote_by_id}
use luminarail_backend.Liquidity.Service.{
  get_pool, get_available_liquidity, reserve_for_order_in_tx,
}

pub record CreateOrderDto : Type 0 where
  pub quote_id : ℕ
  pub type : Option OrderType
  pub wallet_address : Option Text
  pub idempotency_key : Option ℕ

-- `{ order, isDuplicate }`
pub record CreatedOrder : Type 0 where
  pub order : Order
  pub is_duplicate : Bool

-- What `createOrder` throws for the quote that it read.
abbrev pub quote_refusal : ℕ → Quote → Option Error
quote_refusal now quote =
    if quote.status === QuoteStatus.used
    then some quote_used
    else if quote.status === QuoteStatus.cancelled
    then some quote_cancelled
    else if quote.status === QuoteStatus.expired
        || not (quote.status === QuoteStatus.active)
        || ltb quote.expires_at now
    then some quote_expired
    else none

-- `address || null`
abbrev pub non_empty : Option Text → Option Text
non_empty none = none
non_empty (some []) = none
non_empty (some (c ∷ s)) = some (c ∷ s)

-- The unique constraint on the key, which only a given key can break.
abbrev pub key_taken : Option ℕ → Order → Bool
key_taken none o = false
key_taken (some key) o = same_id o.idempotency_key key

abbrev pub transaction_type : Option OrderType → TransactionType
transaction_type none = TransactionType.deposit
transaction_type (some t) =
    if t === OrderType.off_ramp then TransactionType.withdrawal else TransactionType.deposit

-- The transaction of `createOrder`: the quote, the order, the reservation and the record of it, whose
-- amount has four decimals, to which `round4` rounds.
unfoldable pub place_order : Config → (ℤ → ℤ) → ℕ → ℕ → CreateOrderDto → Quote → Pool → Action Order
unfolding reserve_for_order_in_tx
place_order cfg round4 now user_id dto quote pool = do
  update_quote quote.id (λ q. record q { status = QuoteStatus.used })
  taken ← gets (λ w. any (key_taken dto.idempotency_key) w.tables.orders)
  raise_if taken unique_violation
  id ← fresh
  new_order ← insert_order (record {
    id = id;
    user_id = user_id;
    quote_id = quote.id;
    idempotency_key = dto.idempotency_key;
    type = or_else dto.type OrderType.on_ramp;
    status = OrderStatus.created;
    source_currency = quote.source_currency;
    destination_asset = quote.destination_asset;
    source_amount = quote.source_amount;
    destination_amount = quote.destination_amount;
    wallet_address = non_empty dto.wallet_address;
    created_at = now;
  })
  reserve_for_order_in_tx cfg now (record {
    pool_id = pool.id;
    order_id = new_order.id;
    amount = finite quote.destination_amount;
    expiry_minutes = none;
  })
  transaction_id ← fresh
  insert_transaction (record {
    id = transaction_id;
    user_id = user_id;
    order_id = new_order.id;
    type = transaction_type dto.type;
    amount = round4 quote.destination_amount;
    asset = quote.destination_asset;
  })
  pure new_order

unfoldable pub create_new : Config → (ℤ → ℤ) → ℕ → ℕ → CreateOrderDto → Action CreatedOrder
unfolding get_quote_by_id get_pool get_available_liquidity place_order audit_log
create_new cfg round4 now user_id dto = do
  quote ← get_quote_by_id now dto.quote_id
  throw_any (quote_refusal now quote)
  pool ← get_pool cfg quote.destination_asset cfg.network
  available ← get_available_liquidity cfg quote.destination_asset cfg.network
  raise_if (lt available quote.destination_amount) insufficient_liquidity
  order ← transaction (place_order cfg round4 now user_id dto quote pool)
  audit_log (Actor.user user_id) AuditAction.order_created (some order.id)
  pure (record { order = order; is_duplicate = false })

unfoldable pub create_unless_known :
    Config → (ℤ → ℤ) → ℕ → ℕ → CreateOrderDto → Option Order → Action CreatedOrder
unfolding create_new
create_unless_known cfg round4 now user_id dto none = create_new cfg round4 now user_id dto
create_unless_known cfg round4 now user_id dto (some existing) =
    pure (record { order = existing; is_duplicate = true })

unfoldable pub create_order : Config → (ℤ → ℤ) → ℕ → ℕ → CreateOrderDto → Action CreatedOrder
unfolding create_unless_known
create_order cfg round4 now user_id dto = do
  existing ← find_order (λ o. o.user_id == user_id && key_taken dto.idempotency_key o)
  create_unless_known cfg round4 now user_id dto existing

unfoldable pub get_order_by_id : ℕ → ℕ → Bool → Action Order
get_order_by_id user_id order_id is_admin = do
  found ← find_order (λ o. o.id == order_id)
  order ← or_raise found order_not_found
  raise_if (not is_admin && not (order.user_id == user_id)) order_forbidden
  pure order

unfoldable pub transition_order_status : ℕ → OrderStatus → Actor → Action Order
unfolding audit_log
transition_order_status order_id target_status actor = do
  found ← find_order (λ o. o.id == order_id)
  order ← or_raise found order_not_found
  if order.status === target_status then pure order else do
    updated ← update_order order_id (λ o. record o { status = target_status })
    audit_log actor AuditAction.order_status_changed (some order.id)
    pure updated

-- The status that `updateOrderWallet` writes.
abbrev pub wallet_status : OrderStatus → Bool → OrderStatus
wallet_status status has_succeeded_payment =
    if status === OrderStatus.completed || status === OrderStatus.settlement_completed
    then status
    else if has_succeeded_payment || status === OrderStatus.payment_confirmed
    then OrderStatus.settlement_pending
    else status

unfoldable pub update_order_wallet : ℕ → ℕ → Text → Bool → Action Order
unfolding get_order_by_id audit_log
update_order_wallet order_id user_id wallet_address is_admin = do
  order ← get_order_by_id user_id order_id is_admin
  paid ← gets (λ w.
      any (λ p. p.order_id == order.id && p.status === PaymentStatus.succeeded) w.tables.payments)
  updated ← update_order order_id (λ o. record o {
    wallet_address = some wallet_address;
    status = wallet_status order.status paid;
  })
  audit_log (Actor.user user_id) AuditAction.order_wallet_attached (some order.id)
  pure updated
