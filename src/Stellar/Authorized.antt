-- ===== src/Stellar/Authorized.antt =====
-- What an approved transaction and its order must say, and what single checks tell.
use luminarail_backend.Base.{
  ℕ, ◌+◌, ◌≤◌, ◌≡◌, Bool, true, false, not, ◌&&◌, ◌||◌, Option, some, List, [], ◌∷◌, find, any,
  ◌==◌, ◌===◌, is_some, arith,
}
use luminarail_backend.Int.{ℤ, ◌+ℤ◌, ◌≤ℤ◌}
use luminarail_backend.Store.Status.{
  OrderStatus, order_status_enum, PaymentStatus, payment_status_enum, reservation_status_enum,
  SettlementStatus, settlement_status_enum, Text, text_eq,
}
use luminarail_backend.Store.Rows.{World, Order, Settlement}
use luminarail_backend.Store.Config.{Config}
use luminarail_backend.Settlement.Service.{is_active_refund}
use luminarail_backend.Stellar.Encode.{parse_settlement_id, parse_amount}
use luminarail_backend.Stellar.Check.{passed}
use luminarail_backend.Stellar.Policy.{
  ScVal, Operation, Invocation, ParsedTransaction, PolicyContext, Network, SettlementCall, single,
  invocation, five, read_number, is_number, valid_wallet, is_confirmed, outflow, hour, day,
  check_limits, approved_function, or_text, differs,
}

-- What the transaction itself must say.
pub record IsExpectedCall (cfg : Config) (net : Network) (context : PolicyContext)
    (parsed : Option ParsedTransaction) (call : SettlementCall) : Type 0 where
  pub not_paused : cfg.emergency_global_pause ≡ false
  pub id_matches :
      (id : ℤ) × (call.id ≡ ScVal.number id)
      × (is_number id (parse_settlement_id context.settlement_id) ≡ true)
  pub source_matches : differs (or_text context.expected_source net.signer_key) call.source ≡ false
  pub asset_matches :
      differs (or_text context.expected_asset_contract net.usdc_contract) call.asset ≡ false
  pub one_call :
      (tx : ParsedTransaction) × (i : Invocation) × (parsed ≡ some tx)
      × (tx.network_passphrase == net.passphrase ≡ true)
      × (tx.operations ≡ Operation.invoke_contract i ∷ [])
      × (text_eq i.contract (or_text context.expected_vault_contract net.vault_contract) ≡ true)
      × (text_eq i.function_name approved_function ≡ true)
      × (five i.arguments ≡ passed call)

-- What the database must say of the order `o` and the settlement `s`.
pub record IsPayable (cfg : Config) (net : Network) (now : ℕ) (context : PolicyContext)
    (call : SettlementCall) (w : World) (o : Order) (s : Settlement) : Type 0 where
  pub order_read : find (λ x. x.id == context.order_id) w.tables.orders ≡ some o
  pub order_pending : (o.status === OrderStatus.settlement_pending) ≡ true
  pub no_refund : is_some (find (is_active_refund context.order_id) w.tables.refunds) ≡ false
  pub to_wallet :
      (wallet : Text) × (valid_wallet net.is_valid_key o.wallet_address ≡ passed wallet)
      × (text_eq call.destination wallet ≡ true)
  pub exact_amount :
      (n : ℕ) × (amount : ℤ) × (parse_amount (net.show_amount o.destination_amount) ≡ some n)
      × (call.amount ≡ ScVal.number amount)
      × (is_number amount n ≡ true)
  pub paid :
      any (λ p. p.order_id == o.id && p.status === PaymentStatus.succeeded) w.tables.payments ≡ true
  pub reserved : is_confirmed (find (λ r. r.order_id == o.id) w.tables.reservations) ≡ true
  pub settlement_read : find (λ x. x.order_id == context.order_id) w.tables.settlements ≡ some s
  pub not_completed : (s.status === SettlementStatus.completed) ≡ false
  pub fresh_enough : now ≤ s.created_at + day
  pub at_least : cfg.min_settlement ≤ℤ o.destination_amount
  pub at_most : o.destination_amount ≤ℤ cfg.max_single_settlement
  pub within_hour :
      outflow now hour w.tables.treasury +ℤ o.destination_amount ≤ℤ cfg.max_hourly_outflow
  pub within_day :
      outflow now day w.tables.treasury +ℤ o.destination_amount ≤ℤ cfg.max_daily_outflow

pub not-false : (b : Bool) → not b ≡ false → b ≡ true
not-false b h = ground arith

pub or_not-false : (a b : Bool) → (a || not b) ≡ false → b ≡ true
or_not-false a b h = ground arith

pub passed_lem : {A : Type 0} {a b : A} → passed a ≡ passed b → a ≡ b
passed_lem h = cc

pub cc_id : {a b : SettlementCall} {v : ScVal} → a ≡ b → a.id ≡ v → b.id ≡ v
cc_id e h = cc

pub cc_ops :
    {ops : List Operation} {op : Operation} {i : Invocation}
    → ops ≡ op ∷ []
    → op ≡ Operation.invoke_contract i
    → ops ≡ Operation.invoke_contract i ∷ []
cc_ops e h = cc

pub read_number_lem : (v : ScVal) {n : ℤ} → read_number v ≡ passed n → v ≡ ScVal.number n
unfolding read_number
read_number_lem (ScVal.number m) h = ground arith
read_number_lem (ScVal.address a) h = cc
read_number_lem ScVal.other h = cc

pub single_lem : (ops : List Operation) {op : Operation} → single ops ≡ passed op → ops ≡ op ∷ []
unfolding single
single_lem [] h = cc
single_lem (x ∷ []) h = ground arith
single_lem (x ∷ y ∷ r) h = cc

pub invocation_lem :
    (op : Operation) {i : Invocation} → invocation op ≡ passed i → op ≡ Operation.invoke_contract i
unfolding invocation
invocation_lem (Operation.invoke_contract i) h = ground arith
invocation_lem Operation.other_host_function h = cc
invocation_lem Operation.other_operation h = cc

pub check_limits_lem :
    (cfg : Config) (now : ℕ) (o : Order) (s : Settlement) (w : World)
    → check_limits cfg now o s w ≡ passed tt
    → (now ≤ s.created_at + day)
      × (cfg.min_settlement ≤ℤ o.destination_amount)
      × (o.destination_amount ≤ℤ cfg.max_single_settlement)
      × (outflow now hour w.tables.treasury +ℤ o.destination_amount ≤ℤ cfg.max_hourly_outflow)
      × (outflow now day w.tables.treasury +ℤ o.destination_amount ≤ℤ cfg.max_daily_outflow)
unfolding check_limits
check_limits_lem cfg now o s w h =
    (ground arith, ground arith, ground arith, ground arith, ground arith)
