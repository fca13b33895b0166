-- ===== src/Settlement/Service.antt =====
-- `SettlementService` of modules/settlements/settlements.service.ts: creation and lookup.
use luminarail_backend.Base.{
  ℕ, Bool, true, false, not, ◌&&◌, ◌||◌, Option, none, some, ◌==◌, ◌===◌, includes, is_some, [],
  ◌∷◌,
}
use luminarail_backend.Int.{ℤ}
use luminarail_backend.Store.Status.{
  OrderStatus, order_status_enum, SettlementStatus, RefundStatus, refund_status_enum, Text,
  is_blank,
}
use luminarail_backend.Store.Rows.{World, Order, Refund, Settlement, Actor, AuditAction}
use luminarail_backend.Store.Config.{Config}
use luminarail_backend.Store.Action.{
  Action, pure, modify, or_raise, raise_if, fresh, audit_log, ◌>>=◌, ◌>>◌, order_not_found,
  settlement_not_found, settlement_forbidden, order_not_settlement_pending, active_refund,
  no_wallet,
}
use luminarail_backend.Store.Table.{find_order, find_refund, find_settlement, insert_settlement}

-- `{ settlement, isDuplicate }`
pub record Created : Type 0 where
  pub settlement : Settlement
  pub is_duplicate : Bool

-- The refunds that rule a settlement out.
abbrev pub is_active_refund : ℕ → Refund → Bool
is_active_refund order_id r =
    r.order_id == order_id
    && includes (RefundStatus.pending ∷ RefundStatus.processing ∷ RefundStatus.succeeded ∷ [])
        r.status

-- `!walletAddress || walletAddress.trim() === ''`
abbrev pub lacks_wallet : Option Text → Bool
lacks_wallet none = true
lacks_wallet (some address) = is_blank address

-- The insert and what follows it. `between` is what other processes commit since the checks; a
-- settlement that one of them has created breaks the unique constraint, and is returned.
unfoldable pub insert_for_order :
    Config → ℕ → (ℤ → ℤ) → (World → World) → Actor → Order → Action Created
unfolding audit_log
insert_for_order cfg now round4 between actor order = do
  settlement_id ← fresh
  modify between
  taken ← find_settlement (λ s. s.order_id == order.id)
  elim taken [
    | some duplicate ↦ pure (record { settlement = duplicate; is_duplicate = true })
    | none ↦ do
      id ← fresh
      settlement ← insert_settlement (record {
        id = id;
        settlement_id = settlement_id;
        order_id = order.id;
        user_id = order.user_id;
        status = SettlementStatus.pending;
        asset = order.destination_asset;
        amount = round4 order.destination_amount;
        source = cfg.signer_public_key;
        destination = order.wallet_address;
        stellar_transaction_hash = none;
        stellar_ledger = none;
        attempt_count = 0;
        last_error = none;
        submitted_at = none;
        confirmed_at = none;
        created_at = now;
      })
      audit_log actor AuditAction.settlement_created (some settlement.id)
      pure (record { settlement = settlement; is_duplicate = false })
  ]

unfoldable pub check_and_insert :
    Config → ℕ → (ℤ → ℤ) → (World → World) → Actor → Order → Option Settlement → Action Created
unfolding insert_for_order
check_and_insert cfg now round4 between actor order (some existing) =
    pure (record { settlement = existing; is_duplicate = true })
check_and_insert cfg now round4 between actor order none = do
  raise_if (not (order.status === OrderStatus.settlement_pending)) order_not_settlement_pending
  refund ← find_refund (is_active_refund order.id)
  raise_if (is_some refund) active_refund
  raise_if (lacks_wallet order.wallet_address) no_wallet
  insert_for_order cfg now round4 between actor order

-- `round4` is how the database rounds a number to the four decimals of the column `amount`.
unfoldable pub create_settlement_for_order :
    Config → ℕ → (ℤ → ℤ) → (World → World) → ℕ → Option Actor → Action Created
unfolding check_and_insert
create_settlement_for_order cfg now round4 between order_id actor_id = do
  found ← find_order (λ o. o.id == order_id)
  order ← or_raise found order_not_found
  existing ← find_settlement (λ s. s.order_id == order_id)
  check_and_insert cfg now round4 between
      (elim actor_id [ none ↦ Actor.user order.user_id | some a ↦ a ]) order existing

-- `!isAdmin && userId && settlement.userId !== userId`
abbrev pub is_foreign : Bool → Option ℕ → ℕ → Bool
is_foreign is_admin none owner = false
is_foreign is_admin (some user_id) owner = not is_admin && not (owner == user_id)

unfoldable pub get_settlement_by_id : ℕ → Option ℕ → Bool → Action Settlement
get_settlement_by_id settlement_id user_id is_admin = do
  found ← find_settlement (λ s. s.id == settlement_id || s.settlement_id == settlement_id)
  settlement ← or_raise found settlement_not_found
  raise_if (is_foreign is_admin user_id settlement.user_id) settlement_forbidden
  pure settlement

unfoldable pub get_settlement_by_order : ℕ → Option ℕ → Bool → Action Settlement
get_settlement_by_order order_id user_id is_admin = do
  found ← find_settlement (λ s. s.order_id == order_id)
  settlement ← or_raise found settlement_not_found
  raise_if (is_foreign is_admin user_id settlement.user_id) settlement_forbidden
  pure settlement
