-- ===== src/Stellar/Tests.antt =====
-- Instances of the theorems on src/stellar, among them a payout of 400 USDC that is approved.
use luminarail_backend.Base.{ℕ, ◌≡◌, refl, true, none, some, [], ◌∷◌}
use luminarail_backend.Int.{pos, ◌+ℤ◌}
use luminarail_backend.Store.Status.{
  OrderStatus, PaymentStatus, ReservationStatus, SettlementStatus, OrderType, Currency, Text,
  text_eq,
}
use luminarail_backend.Store.Rows.{World, Order, Payment, Reservation, Settlement}
use luminarail_backend.Store.Sample.{empty_world, sample_config}
use luminarail_backend.Store.Action.{ok}
use luminarail_backend.Stellar.Encode.{
  read_digits, digits_value, hash_from, parse_settlement_id, before_point, after_point, fit,
  parse_amount,
}
use luminarail_backend.Stellar.Policy.{
  ScVal, Operation, ParsedTransaction, PolicyContext, Network, approved_function, single,
  invocation, read_address, read_number, SettlementCall, five, check_transaction, valid_wallet,
  outflow, check_order, check_limits, decide,
}
use luminarail_backend.Stellar.Engine.{announce, validate_and_approve}
use Prim.Native.Nat.{◌^◌, ℕ}
use luminarail_backend.Base.{◌++◌, ◌<◌, ◌*◌, ◌-◌, take, length, arith}
use luminarail_backend.Stellar.Digits.{
  settlement_id_fits, settlement_ids_collide, amount_in_stroops, pow10,
}
use luminarail_backend.Base.{◌==◌, if◌then◌else◌}
use luminarail_backend.Stellar.Confirmation.{
  RpcAnswer, get_transaction_status, decision, refused, timed_out, Waits, confirm_transaction,
  confirm_first, confirm_timeout,
}
use luminarail_backend.Stellar.Authorized.{IsExpectedCall, IsPayable}
use luminarail_backend.Stellar.Approval.{approval-IsAuthorized}
use luminarail_backend.Store.Action.{audit_log}

abbrev net : Network
net = record {
  passphrase = 5;
  vault_contract = b'C' ∷ b'V' ∷ [];
  signer_key = b'G' ∷ b'S' ∷ [];
  usdc_contract = b'C' ∷ b'U' ∷ [];
  is_valid_key = λ key. true;
  show_amount = λ amount. b'4' ∷ b'0' ∷ b'0' ∷ [];
}

abbrev wallet : Text
wallet = b'G' ∷ b'W' ∷ []

abbrev context : PolicyContext
context = record {
  settlement_id =
      b's' ∷ b't' ∷ b'l' ∷ b'_' ∷ b'2' ∷ b'0' ∷ b'2' ∷ b'5' ∷ b'0' ∷ b'0' ∷ b'4' ∷ b'2' ∷ [];
  settlement_key = 42;
  order_id = 9;
  expected_source = [];
  expected_asset_contract = [];
  expected_vault_contract = [];
}

abbrev transaction : ParsedTransaction
transaction = record {
  network_passphrase = 5;
  operations =
      Operation.invoke_contract (record {
        contract = b'C' ∷ b'V' ∷ [];
        function_name = approved_function;
        arguments =
            ScVal.number (pos 20250042)
            ∷ ScVal.address (b'G' ∷ b'S' ∷ [])
            ∷ ScVal.address wallet
            ∷ ScVal.address (b'C' ∷ b'U' ∷ [])
            ∷ ScVal.number (pos 4000000000)
            ∷ [];
      })
      ∷ [];
}

abbrev order : Order
order = record {
  id = 9;
  user_id = 4;
  quote_id = 2;
  idempotency_key = none;
  type = OrderType.on_ramp;
  status = OrderStatus.settlement_pending;
  source_currency = Currency.ngn;
  destination_asset = Currency.usdc;
  source_amount = pos 6000000;
  destination_amount = pos 4000000000;
  wallet_address = some wallet;
  created_at = 1000;
}

abbrev payment : Payment
payment = record {
  id = 5;
  order_id = 9;
  user_id = 4;
  provider = 1;
  provider_payment_id = none;
  amount = pos 6000000;
  platform_fee = pos 60000;
  net_amount = pos 5940000;
  currency = Currency.ngn;
  status = PaymentStatus.succeeded;
  reference = 8;
  idempotency_key = none;
  created_at = 1500;
}

abbrev reservation : Reservation
reservation = record {
  id = 1;
  pool_id = 0;
  order_id = 9;
  amount = pos 4000000000;
  status = ReservationStatus.confirmed;
  expires_at = 901000;
}

abbrev settlement : Settlement
settlement = record {
  id = 6;
  settlement_id = 42;
  order_id = 9;
  user_id = 4;
  status = SettlementStatus.submitting;
  asset = Currency.usdc;
  amount = pos 4000000000;
  source = 77;
  destination = some wallet;
  stellar_transaction_hash = none;
  stellar_ledger = none;
  attempt_count = 0;
  last_error = none;
  submitted_at = none;
  confirmed_at = none;
  created_at = 2000;
}

abbrev ready : World
ready = record empty_world {
  tables = record (empty_world.tables) {
    orders = order ∷ [];
    payments = payment ∷ [];
    reservations = reservation ∷ [];
    settlements = settlement ∷ [];
  };
}

is_approved :
    (validate_and_approve sample_config net 3000 context (some transaction) ready).0 ≡ ok tt
unfolding validate_and_approve decide check_transaction check_order check_limits single invocation
    five read_address read_number valid_wallet outflow announce audit_log parse_settlement_id
    read_digits digits_value hash_from before_point after_point fit parse_amount text_eq ◌+ℤ◌
is_approved = refl

approval-IsAuthorized_example :
    ((validate_and_approve sample_config net 3000 context (some transaction) ready).1.tables
      ≡ ready.tables)
    × ((call : SettlementCall) × (o : Order) × (s : Settlement) × IsExpectedCall sample_config net
          context
          (some transaction)
          call
        × IsPayable sample_config net 3000 context call ready o s)
approval-IsAuthorized_example =
    approval-IsAuthorized sample_config net 3000 context (some transaction) ready is_approved

settlement_id_fits_example : parse_settlement_id (b's' ∷ b't' ∷ b'l' ∷ []) < 2 ^ 64
settlement_id_fits_example = settlement_id_fits (b's' ∷ b't' ∷ b'l' ∷ [])

settlement_ids_collide_example :
    parse_settlement_id
      ((b'2' ∷ b'0' ∷ b'2' ∷ b'5' ∷ b'0' ∷ b'0' ∷ b'4' ∷ b'2' ∷ []) ++ b'a' ∷ b'b' ∷ [])
    ≡ parse_settlement_id
        ((b'2' ∷ b'0' ∷ b'2' ∷ b'5' ∷ b'0' ∷ b'0' ∷ b'4' ∷ b'2' ∷ []) ++ b'x' ∷ b'y' ∷ [])
settlement_ids_collide_example =
    settlement_ids_collide (b'2' ∷ b'0' ∷ b'2' ∷ b'5' ∷ b'0' ∷ b'0' ∷ b'4' ∷ b'2' ∷ [])
      (b'a' ∷ b'b' ∷ []) (b'x' ∷ b'y' ∷ []) (omega arith) refl refl

-- 12.5
amount_in_stroops_example :
    (parse_amount ((b'1' ∷ b'2' ∷ []) ++ b'.' ∷ b'5' ∷ [])
      ≡ some (
          digits_value 0 ((b'1' ∷ b'2' ∷ []) ++ take {A = ℕ} 7 (b'5' ∷ []))
          * pow10 (7 - length {A = ℕ} (b'5' ∷ []))))
    × (parse_amount (b'1' ∷ b'2' ∷ []) ≡ some (digits_value 0 (b'1' ∷ b'2' ∷ []) * 10000000))
amount_in_stroops_example =
    amount_in_stroops b'1' (b'2' ∷ []) (b'5' ∷ []) (refl, (refl, tt)) (refl, tt)

-- The first answer does not know the transaction, the second call throws.
abbrev answers : ℕ → RpcAnswer
answers n = if n == 1 then RpcAnswer.not_found else RpcAnswer.thrown 21

Waits-once : Waits answers 1 1
unfolding decision get_transaction_status
Waits-once = (refl, tt)

second_decides : decision (get_transaction_status (answers 2)) ≡ some refused
unfolding decision get_transaction_status
second_decides = refl

confirm_first_example : confirm_transaction answers none ≡ refused
confirm_first_example = confirm_first answers none 1 refused (omega arith) Waits-once second_decides

all_wait : Waits (λ n. RpcAnswer.pending) 1 3
unfolding decision get_transaction_status
all_wait = (refl, (refl, (refl, tt)))

confirm_timeout_example : confirm_transaction (λ n. RpcAnswer.pending) (some 3) ≡ timed_out
confirm_timeout_example = confirm_timeout (λ n. RpcAnswer.pending) (some 3) all_wait
