-- ===== src/Stellar/Policy.antt =====
-- `SettlementPolicyEngine` of src/stellar/policy/settlement-policy.engine.ts. What the Stellar SDK reads
-- from the transaction's envelope is the argument `parsed`, none if it cannot read it.
use luminarail_backend.Base.{
  ℕ, ◌+◌, ◌*◌, Bool, true, false, not, ◌&&◌, ◌||◌, Option, none, some, List, [], ◌∷◌, find, any,
  leb, ltb, is_some, ⊤, ◌==◌, ◌===◌, if◌then◌else◌,
}
use luminarail_backend.Int.{ℤ, pos, negsuc, ◌+ℤ◌, lt}
use luminarail_backend.Store.Status.{
  OrderStatus, order_status_enum, PaymentStatus, payment_status_enum, ReservationStatus,
  reservation_status_enum, SettlementStatus, settlement_status_enum, TreasuryType,
  treasury_type_enum, Text, text_eq,
}
use luminarail_backend.Store.Rows.{World, Order, Settlement, Reservation, TreasuryTransaction}
use luminarail_backend.Store.Config.{Config}
use luminarail_backend.Store.Action.{Violation}
use luminarail_backend.Settlement.Service.{is_active_refund}
use luminarail_backend.Stellar.Check.{
  Check, passed, rejected, broken, reject_if, or_reject, or_break, ◌>>=◌, ◌>>◌,
}
use luminarail_backend.Stellar.Encode.{parse_settlement_id, parse_amount}

-- A contract's argument: a number that `BigInt` reads, an address, or neither.
pub data ScVal : Type 0 where
  number : ℤ → ScVal
  address : Text → ScVal
  other : ScVal

pub record Invocation : Type 0 where
  pub contract : Text
  pub function_name : Text
  pub arguments : List ScVal

pub data Operation : Type 0 where
  invoke_contract : Invocation → Operation
  other_host_function other_operation : Operation

pub record ParsedTransaction : Type 0 where
  pub network_passphrase : ℕ
  pub operations : List Operation

-- `AuthorizationPolicyContext`, as far as the engine reads it; an empty text is an absent one.
pub record PolicyContext : Type 0 where
  pub settlement_id : Text
  pub settlement_key : ℕ
  pub order_id : ℕ
  pub expected_source : Text
  pub expected_asset_contract : Text
  pub expected_vault_contract : Text

-- The settings of the network, as texts; `is_valid_key` is `StrKey.isValidEd25519PublicKey`, and
-- `show_amount` is `toString` of a Decimal that counts 10^-7 USDC.
pub record Network : Type 0 where
  pub passphrase : ℕ
  pub vault_contract : Text
  pub signer_key : Text
  pub usdc_contract : Text
  pub is_valid_key : Text → Bool
  pub show_amount : ℤ → Text

-- `a || b`
abbrev pub or_text : Text → Text → Text
or_text [] b = b
or_text (c ∷ s) b = c ∷ s

abbrev pub is_empty : Text → Bool
is_empty [] = true
is_empty (c ∷ s) = false

-- 'create_settlement'
abbrev pub approved_function : Text
approved_function =
    b'c' ∷ b'r' ∷ b'e' ∷ b'a' ∷ b't' ∷ b'e' ∷ b'_' ∷ b's' ∷ b'e' ∷ b't' ∷ b't' ∷ b'l' ∷ b'e' ∷ b'm'
    ∷ b'e' ∷ b'n' ∷ b't' ∷ []

unfoldable pub single : List Operation → Check Operation
single (op ∷ []) = passed op
single _ = rejected Violation.operation_count

unfoldable pub invocation : Operation → Check Invocation
invocation (Operation.invoke_contract call) = passed call
invocation Operation.other_host_function = rejected Violation.host_function
invocation Operation.other_operation = rejected Violation.operation_type

-- `Address.fromScVal`
unfoldable pub read_address : ScVal → Check Text
read_address (ScVal.address a) = passed a
read_address (ScVal.number n) = broken
read_address ScVal.other = broken

-- `BigInt(scValToNative(…))`
unfoldable pub read_number : ScVal → Check ℤ
read_number (ScVal.number n) = passed n
read_number (ScVal.address a) = broken
read_number ScVal.other = broken

-- The five arguments of `create_settlement`; the two numbers are read later.
pub record SettlementCall : Type 0 where
  pub id : ScVal
  pub source : Text
  pub destination : Text
  pub asset : Text
  pub amount : ScVal

unfoldable pub five : List ScVal → Check SettlementCall
unfolding read_address
five (i ∷ s ∷ d ∷ a ∷ n ∷ []) = do
  source ← read_address s
  destination ← read_address d
  asset ← read_address a
  passed (record { id = i; source = source; destination = destination; asset = asset; amount = n })
five _ = rejected Violation.argument_count

abbrev pub differs : Text → Text → Bool
differs expected actual = not (is_empty expected) && not (text_eq actual expected)

abbrev pub is_number : ℤ → ℕ → Bool
is_number (pos n) m = n == m
is_number (negsuc n) m = false

-- Steps 1 to 9: the pause, and the transaction against its context.
unfoldable pub check_transaction :
    Config → Network → PolicyContext → Option ParsedTransaction → Check SettlementCall
unfolding single invocation five read_number
check_transaction cfg net context parsed = do
  reject_if cfg.emergency_global_pause Violation.emergency_pause
  tx ← or_reject parsed Violation.malformed_xdr
  reject_if (not (tx.network_passphrase == net.passphrase)) Violation.passphrase_mismatch
  op ← single tx.operations
  call ← invocation op
  let expected_contract = or_text context.expected_vault_contract net.vault_contract
  reject_if (is_empty expected_contract || not (text_eq call.contract expected_contract))
      Violation.unapproved_contract
  reject_if (not (text_eq call.function_name approved_function)) Violation.unapproved_function
  arguments ← five call.arguments
  id ← read_number arguments.id
  reject_if (not (is_number id (parse_settlement_id context.settlement_id)))
      Violation.settlement_id_mismatch
  reject_if (differs (or_text context.expected_source net.signer_key) arguments.source)
      Violation.source_mismatch
  reject_if (differs (or_text context.expected_asset_contract net.usdc_contract) arguments.asset)
      Violation.asset_mismatch
  passed arguments

-- `!order.walletAddress || StrKey.isValidEd25519PublicKey(…) === false`
unfoldable pub valid_wallet : (Text → Bool) → Option Text → Check Text
valid_wallet is_valid none = rejected Violation.wallet_invalid
valid_wallet is_valid (some wallet) =
    if is_empty wallet || not (is_valid wallet)
    then rejected Violation.wallet_invalid
    else passed wallet

abbrev pub is_confirmed : Option Reservation → Bool
is_confirmed none = false
is_confirmed (some r) = r.status === ReservationStatus.confirmed

-- The settlement payouts that were recorded within the last `window` milliseconds.
unfoldable pub outflow : ℕ → ℕ → List TreasuryTransaction → ℤ
outflow now window [] = pos 0
outflow now window (t ∷ ts) =
    let rest = outflow now window ts in
    if t.type === TreasuryType.settlement_payout && leb now (t.created_at + window)
    then t.amount +ℤ rest
    else rest

abbrev pub hour : ℕ
hour = 60 * 60 * 1000

abbrev pub day : ℕ
day = 24 * hour

-- Steps 10 to 13: the order, its payment and its reservation, and the settlement.
unfoldable pub check_order :
    Network → PolicyContext → SettlementCall → World → Check (Order × Settlement)
unfolding valid_wallet read_number
check_order net context call w = do
  order ← or_reject (find (λ o. o.id == context.order_id) w.tables.orders) Violation.order_missing
  reject_if (not (order.status === OrderStatus.settlement_pending)) Violation.order_status
  reject_if (is_some (find (is_active_refund context.order_id) w.tables.refunds))
      Violation.active_refund_present
  wallet ← valid_wallet net.is_valid_key order.wallet_address
  reject_if (not (text_eq call.destination wallet)) Violation.destination_mismatch
  expected ← or_break (parse_amount (net.show_amount order.destination_amount))
  amount ← read_number call.amount
  reject_if (not (is_number amount expected)) Violation.amount_mismatch
  reject_if
      (not (
        any (λ p. p.order_id == order.id && p.status === PaymentStatus.succeeded)
          w.tables.payments))
      Violation.no_succeeded_payment
  reject_if (not (is_confirmed (find (λ r. r.order_id == order.id) w.tables.reservations)))
      Violation.reservation_status
  settlement ←
      or_reject (find (λ s. s.order_id == context.order_id) w.tables.settlements)
        Violation.settlement_missing
  reject_if (settlement.status === SettlementStatus.completed) Violation.settlement_completed
  passed (order, settlement)

-- Steps 14 to 16: the settlement's age, and the limits. The amounts are compared exactly, where the
-- source compares the nearest floating-point numbers, and a configured limit is a number, never NaN.
unfoldable pub check_limits : Config → ℕ → Order → Settlement → World → Check ⊤
unfolding outflow
check_limits cfg now order settlement w = do
  let payout = order.destination_amount
  reject_if (ltb (settlement.created_at + day) now) Violation.settlement_stale
  reject_if (lt payout cfg.min_settlement) Violation.below_minimum
  reject_if (lt cfg.max_single_settlement payout) Violation.above_single
  reject_if (lt cfg.max_hourly_outflow (outflow now hour w.tables.treasury +ℤ payout))
      Violation.above_hourly
  reject_if (lt cfg.max_daily_outflow (outflow now day w.tables.treasury +ℤ payout))
      Violation.above_daily

-- The engine's decision, over what it reads of the database at one moment.
unfoldable pub decide :
    Config → Network → ℕ → PolicyContext → Option ParsedTransaction → World → Check Settlement
unfolding check_transaction check_order check_limits
decide cfg net now context parsed w = do
  call ← check_transaction cfg net context parsed
  found ← check_order net context call w
  check_limits cfg now found.0 found.1 w
  passed found.1
