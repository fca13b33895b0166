-- ===== src/Store/Rows.antt =====
-- The rows of prisma/schema.prisma. Ids, keys, hashes and references are only compared, so they
-- are numbers; an amount counts the smallest unit of its own column (10^-4 or 10^-7).
use luminarail_backend.Base.{ℕ, Bool, Option, List}
use luminarail_backend.Int.{ℤ}
use luminarail_backend.Store.Status.{
  OrderStatus, PaymentStatus, SettlementStatus, RefundStatus, ReservationStatus, QuoteStatus,
  OrderType, TreasuryType, TransactionType, AlertState, Currency, Text,
}

pub record Pool : Type 0 where
  pub id : ℕ
  pub asset : Currency
  pub network : ℕ
  pub total_balance : ℤ
  pub reserved_balance : ℤ
  pub available_balance : ℤ
  pub min_threshold : ℤ

pub record Reservation : Type 0 where
  pub id : ℕ
  pub pool_id : ℕ
  pub order_id : ℕ
  pub amount : ℤ
  pub status : ReservationStatus
  pub expires_at : ℕ

pub record TreasuryTransaction : Type 0 where
  pub id : ℕ
  pub pool_id : ℕ
  pub type : TreasuryType
  pub amount : ℤ
  pub stellar_tx_hash : Option ℕ
  pub external_ref : Option ℕ
  pub created_at : ℕ

pub record Quote : Type 0 where
  pub id : ℕ
  pub source_currency : Currency
  pub destination_asset : Currency
  pub source_amount : ℤ
  pub destination_amount : ℤ
  pub status : QuoteStatus
  pub expires_at : ℕ

pub record Order : Type 0 where
  pub id : ℕ
  pub user_id : ℕ
  pub quote_id : ℕ
  pub idempotency_key : Option ℕ
  pub type : OrderType
  pub status : OrderStatus
  pub source_currency : Currency
  pub destination_asset : Currency
  pub source_amount : ℤ
  pub destination_amount : ℤ
  pub wallet_address : Option Text
  pub created_at : ℕ

pub record Payment : Type 0 where
  pub id : ℕ
  pub order_id : ℕ
  pub user_id : ℕ
  pub provider : ℕ
  pub provider_payment_id : Option ℕ
  pub amount : ℤ
  pub platform_fee : ℤ
  pub net_amount : ℤ
  pub currency : Currency
  pub status : PaymentStatus
  pub reference : ℕ
  pub idempotency_key : Option ℕ
  pub created_at : ℕ

pub record Refund : Type 0 where
  pub id : ℕ
  pub order_id : ℕ
  pub payment_id : Option ℕ
  pub user_id : ℕ
  pub amount : ℤ
  pub currency : Currency
  pub reason : ℕ
  pub status : RefundStatus
  pub idempotency_key : ℕ
  pub provider_refund_id : Option ℕ
  pub failure_reason : Option ℕ
  -- the two marks that `executeRefund` looks for in the metadata
  pub ambiguous : Bool

pub record Settlement : Type 0 where
  pub id : ℕ
  pub settlement_id : ℕ
  pub order_id : ℕ
  pub user_id : ℕ
  pub status : SettlementStatus
  pub asset : Currency
  pub amount : ℤ
  pub source : ℕ
  pub destination : Option Text
  pub stellar_transaction_hash : Option ℕ
  pub stellar_ledger : Option ℕ
  pub attempt_count : ℕ
  pub last_error : Option ℕ
  pub submitted_at : Option ℕ
  pub confirmed_at : Option ℕ
  pub created_at : ℕ

-- The application's own record of an order's money movement, `Transaction` of the schema.
pub record Transaction : Type 0 where
  pub id : ℕ
  pub user_id : ℕ
  pub order_id : ℕ
  pub type : TransactionType
  pub amount : ℤ
  pub asset : Currency

pub record WebhookEvent : Type 0 where
  pub id : ℕ
  pub provider : ℕ
  pub event_id : ℕ
  pub event_type : ℕ
  pub processed : Bool

-- The tables that a database transaction can roll back.
pub record Tables : Type 0 where
  pub pools : List Pool
  pub reservations : List Reservation
  pub treasury : List TreasuryTransaction
  pub quotes : List Quote
  pub orders : List Order
  pub payments : List Payment
  pub refunds : List Refund
  pub settlements : List Settlement
  pub transactions : List Transaction
  pub webhook_events : List WebhookEvent

pub data Actor : Type 0 where
  user : ℕ → Actor
  system : Actor

-- The `action` strings of the audit log.
pub data AuditAction : Type 0 where
  quote_created order_created order_status_changed order_wallet_attached : AuditAction
  payment_created payment_verified payment_succeeded payment_failed : AuditAction
  refund_created refund_succeeded refund_failed refund_processing_ambiguous : AuditAction
  automatic_refund_trigger_error : AuditAction
  settlement_created settlement_submitting settlement_submitted settlement_confirming : AuditAction
  settlement_completed settlement_failed settlement_reconciliation_required : AuditAction
  settlement_policy_approved settlement_policy_rejected : AuditAction
  treasury_low_balance_critical treasury_low_balance_warn treasury_balance_recovered : AuditAction
  emergency_pause_encountered settlement_reconciliation_failed : AuditAction
  settlement_reconciliation_flagged settlement_reconciled : AuditAction
  payment_reconciliation_deferred payment_reconciliation_failed : AuditAction
  payment_reconciled_success webhook_received webhook_duplicate webhook_processed : AuditAction
  transaction_signed distributed_lock_acquired distributed_lock_released : AuditAction

pub record AuditEntry : Type 0 where
  pub actor : Actor
  pub action : AuditAction
  pub resource_id : Option ℕ

-- One pool's entry in the process-wide map `poolStates`.
pub record PoolState : Type 0 where
  pub pool_id : ℕ
  pub state : AlertState

-- Everything that the services read and write: the tables; the audit log, which is written outside
-- of the transactions; the telemetry's map in memory; the source of fresh ids.
pub record World : Type 0 where
  pub tables : Tables
  pub audit : List AuditEntry
  pub pool_states : List PoolState
  pub next_id : ℕ
