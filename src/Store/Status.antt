-- ===== src/Store/Status.antt =====
-- The enumerations of prisma/schema.prisma, and the strings that the services only compare.
use luminarail_backend.Base.{
  leb, any, ◌∷◌, [], ℕ, ◌+◌, Bool, true, false, ◌&&◌, ◌||◌, List, [], ◌∷◌, ◌==◌, Enum,
}

pub data OrderStatus : Type 0 where
  created awaiting_payment payment_detected payment_confirmed settlement_pending : OrderStatus
  settlement_completed completed failed cancelled refund_pending refunded : OrderStatus
  refund_failed expired : OrderStatus

abbrev pub order_status_code : OrderStatus → ℕ
order_status_code OrderStatus.created = 0
order_status_code OrderStatus.awaiting_payment = 1
order_status_code OrderStatus.payment_detected = 2
order_status_code OrderStatus.payment_confirmed = 3
order_status_code OrderStatus.settlement_pending = 4
order_status_code OrderStatus.settlement_completed = 5
order_status_code OrderStatus.completed = 6
order_status_code OrderStatus.failed = 7
order_status_code OrderStatus.cancelled = 8
order_status_code OrderStatus.refund_pending = 9
order_status_code OrderStatus.refunded = 10
order_status_code OrderStatus.refund_failed = 11
order_status_code OrderStatus.expired = 12

instance abbrev pub order_status_enum : Enum OrderStatus
order_status_enum = record { code = order_status_code }

pub data PaymentStatus : Type 0 where
  created pending processing succeeded failed cancelled expired refunded : PaymentStatus

abbrev pub payment_status_code : PaymentStatus → ℕ
payment_status_code PaymentStatus.created = 0
payment_status_code PaymentStatus.pending = 1
payment_status_code PaymentStatus.processing = 2
payment_status_code PaymentStatus.succeeded = 3
payment_status_code PaymentStatus.failed = 4
payment_status_code PaymentStatus.cancelled = 5
payment_status_code PaymentStatus.expired = 6
payment_status_code PaymentStatus.refunded = 7

instance abbrev pub payment_status_enum : Enum PaymentStatus
payment_status_enum = record { code = payment_status_code }

pub data SettlementStatus : Type 0 where
  pending submitting submitted confirming completed failed requires_reconciliation :
      SettlementStatus

abbrev pub settlement_status_code : SettlementStatus → ℕ
settlement_status_code SettlementStatus.pending = 0
settlement_status_code SettlementStatus.submitting = 1
settlement_status_code SettlementStatus.submitted = 2
settlement_status_code SettlementStatus.confirming = 3
settlement_status_code SettlementStatus.completed = 4
settlement_status_code SettlementStatus.failed = 5
settlement_status_code SettlementStatus.requires_reconciliation = 6

instance abbrev pub settlement_status_enum : Enum SettlementStatus
settlement_status_enum = record { code = settlement_status_code }

pub data RefundStatus : Type 0 where
  pending processing succeeded failed cancelled : RefundStatus

abbrev pub refund_status_code : RefundStatus → ℕ
refund_status_code RefundStatus.pending = 0
refund_status_code RefundStatus.processing = 1
refund_status_code RefundStatus.succeeded = 2
refund_status_code RefundStatus.failed = 3
refund_status_code RefundStatus.cancelled = 4

instance abbrev pub refund_status_enum : Enum RefundStatus
refund_status_enum = record { code = refund_status_code }

-- `LiquidityReservationStatus`
pub data ReservationStatus : Type 0 where
  reserved confirmed consumed expired_released cancelled_released : ReservationStatus

abbrev pub reservation_status_code : ReservationStatus → ℕ
reservation_status_code ReservationStatus.reserved = 0
reservation_status_code ReservationStatus.confirmed = 1
reservation_status_code ReservationStatus.consumed = 2
reservation_status_code ReservationStatus.expired_released = 3
reservation_status_code ReservationStatus.cancelled_released = 4

instance abbrev pub reservation_status_enum : Enum ReservationStatus
reservation_status_enum = record { code = reservation_status_code }

pub data QuoteStatus : Type 0 where
  active expired used cancelled : QuoteStatus

abbrev pub quote_status_code : QuoteStatus → ℕ
quote_status_code QuoteStatus.active = 0
quote_status_code QuoteStatus.expired = 1
quote_status_code QuoteStatus.used = 2
quote_status_code QuoteStatus.cancelled = 3

instance abbrev pub quote_status_enum : Enum QuoteStatus
quote_status_enum = record { code = quote_status_code }

pub data OrderType : Type 0 where
  on_ramp off_ramp merchant_payment : OrderType

abbrev pub order_type_code : OrderType → ℕ
order_type_code OrderType.on_ramp = 0
order_type_code OrderType.off_ramp = 1
order_type_code OrderType.merchant_payment = 2

instance abbrev pub order_type_enum : Enum OrderType
order_type_enum = record { code = order_type_code }

-- `TreasuryTransactionType`
pub data TreasuryType : Type 0 where
  replenishment settlement_payout manual_adjustment fee_collection : TreasuryType

abbrev pub treasury_type_code : TreasuryType → ℕ
treasury_type_code TreasuryType.replenishment = 0
treasury_type_code TreasuryType.settlement_payout = 1
treasury_type_code TreasuryType.manual_adjustment = 2
treasury_type_code TreasuryType.fee_collection = 3

instance abbrev pub treasury_type_enum : Enum TreasuryType
treasury_type_enum = record { code = treasury_type_code }

pub data TransactionType : Type 0 where
  deposit withdrawal settlement fee : TransactionType

abbrev pub transaction_type_code : TransactionType → ℕ
transaction_type_code TransactionType.deposit = 0
transaction_type_code TransactionType.withdrawal = 1
transaction_type_code TransactionType.settlement = 2
transaction_type_code TransactionType.fee = 3

instance abbrev pub transaction_type_enum : Enum TransactionType
transaction_type_enum = record { code = transaction_type_code }

-- `TreasuryAlertState` of modules/liquidity/treasury-telemetry.service.ts
pub data AlertState : Type 0 where
  healthy warning critical : AlertState

abbrev pub alert_state_code : AlertState → ℕ
alert_state_code AlertState.healthy = 0
alert_state_code AlertState.warning = 1
alert_state_code AlertState.critical = 2

instance abbrev pub alert_state_enum : Enum AlertState
alert_state_enum = record { code = alert_state_code }

-- Currency and asset codes; `other` numbers the codes that the source does not name.
pub data Currency : Type 0 where
  ngn usdc usd xlm : Currency
  other : ℕ → Currency

abbrev pub currency_code : Currency → ℕ
currency_code Currency.ngn = 0
currency_code Currency.usdc = 1
currency_code Currency.usd = 2
currency_code Currency.xlm = 3
currency_code (Currency.other n) = 4 + n

instance abbrev pub currency_enum : Enum Currency
currency_enum = record { code = currency_code }

-- A text that the source looks into, as its character codes.
abbrev pub Text : Type 0
Text = List ℕ

-- White space as `trim` takes it off: tab to carriage return, space and no-break space, the spaces of
-- Unicode, its line and paragraph separators, and the byte order mark.
abbrev pub is_space : ℕ → Bool
is_space c =
    leb 9 c && leb c 13
    || leb 8192 c && leb c 8202
    || any (λ x. x == c) (32 ∷ 160 ∷ 5760 ∷ 8232 ∷ 8233 ∷ 8239 ∷ 8287 ∷ 12288 ∷ 65279 ∷ [])

-- `s.trim() === ''`
unfoldable pub is_blank : Text → Bool
is_blank [] = true
is_blank (c ∷ s) = is_space c && is_blank s

unfoldable pub text_eq : Text → Text → Bool
text_eq [] [] = true
text_eq (c ∷ s) (d ∷ t) = c == d && text_eq s t
text_eq _ _ = false
