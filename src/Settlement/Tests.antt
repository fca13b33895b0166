-- ===== src/Settlement/Tests.antt =====
-- Instances of the theorems on settlements, at an order of 400 USDC that awaits its settlement.
use luminarail_backend.Base.{◌≡◌, ◌+◌, refl, false, none, some, [], ◌∷◌, find, ◌==◌}
use luminarail_backend.Int.{ℤ, pos}
use luminarail_backend.Store.Status.{OrderStatus, SettlementStatus, OrderType, Currency, is_blank}
use luminarail_backend.Store.Rows.{World, Order, Settlement}
use luminarail_backend.Store.Action.{ok, err, invalid_settlement_transition}
use luminarail_backend.Store.Sample.{empty_world, sample_config}
use luminarail_backend.Settlement.Service.{
  Created, create_settlement_for_order, check_and_insert, insert_for_order,
}
use luminarail_backend.Settlement.Marks.{mark_submitting}
use luminarail_backend.Machine.Settlement.{can_transition}
use luminarail_backend.Settlement.Flow.{Mark, run_mark, forbidden_mark}
use luminarail_backend.Settlement.Claims.{claim, claim_once}
use luminarail_backend.Settlement.Creation.{IsGuarded, creation-IsGuarded}

abbrev order : Order
order = record {
  id = 9;
  user_id = 4;
  quote_id = 2;
  idempotency_key = none;
  type = OrderType.on_ramp;
  status = OrderStatus.settlement_pending;
  source_currency = Currency.ngn;
  destination_asset = Currency.usdc;
  source_amount = pos 6000000000;
  destination_amount = pos 4000000000;
  wallet_address = some (71 ∷ []);
  created_at = 1000;
}

abbrev settlement : Settlement
settlement = record {
  id = 1;
  settlement_id = 0;
  order_id = 9;
  user_id = 4;
  status = SettlementStatus.pending;
  asset = Currency.usdc;
  amount = pos 4000000;
  source = 77;
  destination = some (71 ∷ []);
  stellar_transaction_hash = none;
  stellar_ledger = none;
  attempt_count = 0;
  last_error = none;
  submitted_at = none;
  confirmed_at = none;
  created_at = 2000;
}

abbrev ordered : World
ordered = record empty_world { tables = record (empty_world.tables) { orders = order ∷ [] } }

abbrev settled : World
settled = record ordered {
  tables = record (ordered.tables) { settlements = settlement ∷ [] };
  next_id = 2;
}

-- 400 USDC in units of 10^-4.
abbrev rounding : ℤ → ℤ
rounding _ = pos 4000000

abbrev created : Created
created = record { settlement = settlement; is_duplicate = false }

creates :
    (create_settlement_for_order sample_config 2000 rounding (λ v. v) 9 none ordered).0 ≡ ok created
unfolding create_settlement_for_order check_and_insert insert_for_order is_blank
creates = refl

creation-IsGuarded_example : (o : Order) × IsGuarded rounding 9 ordered o settlement
creation-IsGuarded_example =
    creation-IsGuarded sample_config 2000 rounding (λ v. v) 9 none ordered created creates refl

claim_once_example :
    let first = (mark_submitting (λ v. v) 0 settled).1 in
    (mark_submitting (λ v. (mark_submitting (λ v. v) 0 v).1) 0 settled
      ≡ (ok (claim settlement), first))
    × (find (λ x. x.id == 1) first.tables.settlements ≡ some (claim settlement))
    × ((claim settlement).attempt_count ≡ 0 + 1)
claim_once_example = claim_once 0 settlement settled refl refl refl

forbidden_mark_example :
    run_mark (Mark.completed sample_config 3000 55) 0 settled
    ≡ (err invalid_settlement_transition, settled)
unfolding can_transition
forbidden_mark_example =
    forbidden_mark (Mark.completed sample_config 3000 55) 0 settlement settled refl refl
