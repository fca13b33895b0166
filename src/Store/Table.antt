-- ===== src/Store/Table.antt =====
-- The calls of the database client that the services make, one group for each table: `findUnique`
-- and `findFirst` (the first row that passes), `update` (throws if no row passes), `create`.
use luminarail_backend.Base.{
  ℕ, Bool, Option, none, some, List, [], ◌∷◌, ◌++◌, find, update, update_all, select, length, ◌==◌,
}
use luminarail_backend.Store.Rows.{
  World, Pool, Reservation, TreasuryTransaction, Quote, Order, Payment, Refund, Settlement,
  Transaction, WebhookEvent,
}
use luminarail_backend.Store.Action.{Action, ok, err, record_missing}

abbrev pub set_pools : List Pool → World → World
set_pools rows w = record w { tables = record (w.tables) { pools = rows } }

abbrev pub find_pool : (Pool → Bool) → Action (Option Pool)
find_pool p w = (ok (find p w.tables.pools), w)

abbrev pub update_pool : ℕ → (Pool → Pool) → Action Pool
update_pool k f w = elim (find (λ x. x.id == k) w.tables.pools) [
  | none ↦ (err record_missing, w)
  | some x ↦ (ok (f x), set_pools (update (λ y. y.id == k) f w.tables.pools) w)
]

-- `updateMany`, which returns how many rows passed.
abbrev pub update_many_pool : (Pool → Bool) → (Pool → Pool) → Action ℕ
update_many_pool p f w =
    (ok (length (select p w.tables.pools)), set_pools (update_all p f w.tables.pools) w)

abbrev pub insert_pool : Pool → Action Pool
insert_pool x w = (ok x, set_pools (w.tables.pools ++ x ∷ []) w)

abbrev pub set_reservations : List Reservation → World → World
set_reservations rows w = record w { tables = record (w.tables) { reservations = rows } }

abbrev pub find_reservation : (Reservation → Bool) → Action (Option Reservation)
find_reservation p w = (ok (find p w.tables.reservations), w)

abbrev pub update_reservation : ℕ → (Reservation → Reservation) → Action Reservation
update_reservation k f w = elim (find (λ x. x.id == k) w.tables.reservations) [
  | none ↦ (err record_missing, w)
  | some x ↦ (ok (f x), set_reservations (update (λ y. y.id == k) f w.tables.reservations) w)
]

-- `updateMany`, which returns how many rows passed.
abbrev pub update_many_reservation : (Reservation → Bool) → (Reservation → Reservation) → Action ℕ
update_many_reservation p f w = (
  ok (length (select p w.tables.reservations)),
  set_reservations (update_all p f w.tables.reservations) w,
)

abbrev pub insert_reservation : Reservation → Action Reservation
insert_reservation x w = (ok x, set_reservations (w.tables.reservations ++ x ∷ []) w)

abbrev pub set_treasury : List TreasuryTransaction → World → World
set_treasury rows w = record w { tables = record (w.tables) { treasury = rows } }

abbrev pub find_treasury : (TreasuryTransaction → Bool) → Action (Option TreasuryTransaction)
find_treasury p w = (ok (find p w.tables.treasury), w)

abbrev pub update_treasury :
    ℕ → (TreasuryTransaction → TreasuryTransaction) → Action TreasuryTransaction
update_treasury k f w = elim (find (λ x. x.id == k) w.tables.treasury) [
  | none ↦ (err record_missing, w)
  | some x ↦ (ok (f x), set_treasury (update (λ y. y.id == k) f w.tables.treasury) w)
]

-- `updateMany`, which returns how many rows passed.
abbrev pub update_many_treasury :
    (TreasuryTransaction → Bool) → (TreasuryTransaction → TreasuryTransaction) → Action ℕ
update_many_treasury p f w =
    (ok (length (select p w.tables.treasury)), set_treasury (update_all p f w.tables.treasury) w)

abbrev pub insert_treasury : TreasuryTransaction → Action TreasuryTransaction
insert_treasury x w = (ok x, set_treasury (w.tables.treasury ++ x ∷ []) w)

abbrev pub set_quotes : List Quote → World → World
set_quotes rows w = record w { tables = record (w.tables) { quotes = rows } }

abbrev pub find_quote : (Quote → Bool) → Action (Option Quote)
find_quote p w = (ok (find p w.tables.quotes), w)

abbrev pub update_quote : ℕ → (Quote → Quote) → Action Quote
update_quote k f w = elim (find (λ x. x.id == k) w.tables.quotes) [
  | none ↦ (err record_missing, w)
  | some x ↦ (ok (f x), set_quotes (update (λ y. y.id == k) f w.tables.quotes) w)
]

-- `updateMany`, which returns how many rows passed.
abbrev pub update_many_quote : (Quote → Bool) → (Quote → Quote) → Action ℕ
update_many_quote p f w =
    (ok (length (select p w.tables.quotes)), set_quotes (update_all p f w.tables.quotes) w)

abbrev pub insert_quote : Quote → Action Quote
insert_quote x w = (ok x, set_quotes (w.tables.quotes ++ x ∷ []) w)

abbrev pub set_orders : List Order → World → World
set_orders rows w = record w { tables = record (w.tables) { orders = rows } }

abbrev pub find_order : (Order → Bool) → Action (Option Order)
find_order p w = (ok (find p w.tables.orders), w)

abbrev pub update_order : ℕ → (Order → Order) → Action Order
update_order k f w = elim (find (λ x. x.id == k) w.tables.orders) [
  | none ↦ (err record_missing, w)
  | some x ↦ (ok (f x), set_orders (update (λ y. y.id == k) f w.tables.orders) w)
]

-- `updateMany`, which returns how many rows passed.
abbrev pub update_many_order : (Order → Bool) → (Order → Order) → Action ℕ
update_many_order p f w =
    (ok (length (select p w.tables.orders)), set_orders (update_all p f w.tables.orders) w)

abbrev pub insert_order : Order → Action Order
insert_order x w = (ok x, set_orders (w.tables.orders ++ x ∷ []) w)

abbrev pub set_payments : List Payment → World → World
set_payments rows w = record w { tables = record (w.tables) { payments = rows } }

abbrev pub find_payment : (Payment → Bool) → Action (Option Payment)
find_payment p w = (ok (find p w.tables.payments), w)

abbrev pub update_payment : ℕ → (Payment → Payment) → Action Payment
update_payment k f w = elim (find (λ x. x.id == k) w.tables.payments) [
  | none ↦ (err record_missing, w)
  | some x ↦ (ok (f x), set_payments (update (λ y. y.id == k) f w.tables.payments) w)
]

-- `updateMany`, which returns how many rows passed.
abbrev pub update_many_payment : (Payment → Bool) → (Payment → Payment) → Action ℕ
update_many_payment p f w =
    (ok (length (select p w.tables.payments)), set_payments (update_all p f w.tables.payments) w)

abbrev pub insert_payment : Payment → Action Payment
insert_payment x w = (ok x, set_payments (w.tables.payments ++ x ∷ []) w)

abbrev pub set_refunds : List Refund → World → World
set_refunds rows w = record w { tables = record (w.tables) { refunds = rows } }

abbrev pub find_refund : (Refund → Bool) → Action (Option Refund)
find_refund p w = (ok (find p w.tables.refunds), w)

abbrev pub update_refund : ℕ → (Refund → Refund) → Action Refund
update_refund k f w = elim (find (λ x. x.id == k) w.tables.refunds) [
  | none ↦ (err record_missing, w)
  | some x ↦ (ok (f x), set_refunds (update (λ y. y.id == k) f w.tables.refunds) w)
]

-- `updateMany`, which returns how many rows passed.
abbrev pub update_many_refund : (Refund → Bool) → (Refund → Refund) → Action ℕ
update_many_refund p f w =
    (ok (length (select p w.tables.refunds)), set_refunds (update_all p f w.tables.refunds) w)

abbrev pub insert_refund : Refund → Action Refund
insert_refund x w = (ok x, set_refunds (w.tables.refunds ++ x ∷ []) w)

abbrev pub set_settlements : List Settlement → World → World
set_settlements rows w = record w { tables = record (w.tables) { settlements = rows } }

abbrev pub find_settlement : (Settlement → Bool) → Action (Option Settlement)
find_settlement p w = (ok (find p w.tables.settlements), w)

abbrev pub update_settlement : ℕ → (Settlement → Settlement) → Action Settlement
update_settlement k f w = elim (find (λ x. x.id == k) w.tables.settlements) [
  | none ↦ (err record_missing, w)
  | some x ↦ (ok (f x), set_settlements (update (λ y. y.id == k) f w.tables.settlements) w)
]

-- `updateMany`, which returns how many rows passed.
abbrev pub update_many_settlement : (Settlement → Bool) → (Settlement → Settlement) → Action ℕ
update_many_settlement p f w = (
  ok (length (select p w.tables.settlements)),
  set_settlements (update_all p f w.tables.settlements) w,
)

abbrev pub insert_settlement : Settlement → Action Settlement
insert_settlement x w = (ok x, set_settlements (w.tables.settlements ++ x ∷ []) w)

abbrev pub set_transactions : List Transaction → World → World
set_transactions rows w = record w { tables = record (w.tables) { transactions = rows } }

abbrev pub find_transaction : (Transaction → Bool) → Action (Option Transaction)
find_transaction p w = (ok (find p w.tables.transactions), w)

abbrev pub update_transaction : ℕ → (Transaction → Transaction) → Action Transaction
update_transaction k f w = elim (find (λ x. x.id == k) w.tables.transactions) [
  | none ↦ (err record_missing, w)
  | some x ↦ (ok (f x), set_transactions (update (λ y. y.id == k) f w.tables.transactions) w)
]

-- `updateMany`, which returns how many rows passed.
abbrev pub update_many_transaction : (Transaction → Bool) → (Transaction → Transaction) → Action ℕ
update_many_transaction p f w = (
  ok (length (select p w.tables.transactions)),
  set_transactions (update_all p f w.tables.transactions) w,
)

abbrev pub insert_transaction : Transaction → Action Transaction
insert_transaction x w = (ok x, set_transactions (w.tables.transactions ++ x ∷ []) w)

abbrev pub set_webhook_events : List WebhookEvent → World → World
set_webhook_events rows w = record w { tables = record (w.tables) { webhook_events = rows } }

abbrev pub find_webhook_event : (WebhookEvent → Bool) → Action (Option WebhookEvent)
find_webhook_event p w = (ok (find p w.tables.webhook_events), w)

abbrev pub update_webhook_event : ℕ → (WebhookEvent → WebhookEvent) → Action WebhookEvent
update_webhook_event k f w = elim (find (λ x. x.id == k) w.tables.webhook_events) [
  | none ↦ (err record_missing, w)
  | some x ↦ (ok (f x), set_webhook_events (update (λ y. y.id == k) f w.tables.webhook_events) w)
]

-- `updateMany`, which returns how many rows passed.
abbrev pub update_many_webhook_event :
    (WebhookEvent → Bool) → (WebhookEvent → WebhookEvent) → Action ℕ
update_many_webhook_event p f w = (
  ok (length (select p w.tables.webhook_events)),
  set_webhook_events (update_all p f w.tables.webhook_events) w,
)

abbrev pub insert_webhook_event : WebhookEvent → Action WebhookEvent
insert_webhook_event x w = (ok x, set_webhook_events (w.tables.webhook_events ++ x ∷ []) w)
