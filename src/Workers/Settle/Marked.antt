-- ===== src/Workers/Settle/Marked.antt =====
-- What the marks of a settlement write when the machine allows them.
use luminarail_backend.Base.{
  ℕ, ◌≡◌, ap, ◌∙◌, Bool, ◌||◌, Option, some, find, update, [], ◌∷◌, ◌++◌, ◌==◌, arith,
  find-update_both,
}
use luminarail_backend.Store.Status.{OrderStatus, SettlementStatus, settlement_status_enum}
use luminarail_backend.Store.Rows.{World, Order, Settlement, Reservation, Actor, AuditAction}
use luminarail_backend.Store.Config.{Config}
use luminarail_backend.Store.Action.{Result, ok, audit_log}
use luminarail_backend.Store.Table.{set_settlements, set_orders}
use luminarail_backend.Liquidity.Payout.{consume_reservation}
use luminarail_backend.Machine.Settlement.{can_transition}
use luminarail_backend.Settlement.Marks.{
  mark_submitted, mark_confirming, mark_completed, complete_in_tx,
}

-- The row that a lookup by the database's id or the settlement's own finds.
abbrev pub by_id : ℕ → Settlement → Bool
by_id k x = x.id == k || x.settlement_id == k

-- Both lookups by the id `k` find the row `s`.
abbrev pub IsStored : ℕ → Settlement → World → Type 0
IsStored k s w =
    (find (λ x. x.id == k) w.tables.settlements ≡ some s)
    × (find (by_id k) w.tables.settlements ≡ some s)

-- The row of `s` after `f`, and one entry of the audit log.
abbrev pub marked : (Settlement → Settlement) → AuditAction → Settlement → World → World
marked f action s w =
    record (set_settlements (update (λ x. x.id == s.id) f w.tables.settlements) w) {
      audit =
          w.audit ++ record { actor = Actor.system; action = action; resource_id = some s.id } ∷ [];
    }

pub marked-IsStored :
    (f : Settlement → Settlement) (action : AuditAction) (s : Settlement) (w : World)
    → IsStored s.id s w
    → (f s).id ≡ s.id
    → (f s).settlement_id ≡ s.settlement_id
    → IsStored s.id (f s) (marked f action s w)
marked-IsStored f action s w h same same' =
    let rows = w.tables.settlements in
    (
      find-update_both (λ x. x.id == s.id) (λ x. x.id == s.id) f rows s h.0 h.0
          (ap (λ i. i == s.id) same),
      find-update_both (λ x. x.id == s.id) (by_id s.id) f rows s h.0 h.1
          (ap (λ i. i == s.id || (f s).settlement_id == s.id) same
            ∙ ap (λ j. s.id == s.id || j == s.id) same'),
    )

abbrev pub to_submitted : ℕ → ℕ → Settlement → Settlement
to_submitted now hash s = record s {
  status = SettlementStatus.submitted;
  stellar_transaction_hash = some hash;
  submitted_at = some now;
}

abbrev pub to_confirming : Settlement → Settlement
to_confirming s = record s { status = SettlementStatus.confirming }

pub mark_submitted_lem :
    (now hash : ℕ) (s : Settlement) (w : World)
    → IsStored s.id s w
    → s.status ≡ SettlementStatus.submitting
    → mark_submitted now s.id hash w ≡ (
      ok (to_submitted now hash s),
      marked (to_submitted now hash) AuditAction.settlement_submitted s w,
    )
unfolding mark_submitted can_transition
mark_submitted_lem now hash s w (row, named) e = ground arith

pub mark_confirming_lem :
    (s : Settlement) (w : World)
    → IsStored s.id s w
    → s.status ≡ SettlementStatus.submitted
    → mark_confirming s.id w
      ≡ (ok (to_confirming s), marked to_confirming AuditAction.settlement_confirming s w)
unfolding mark_confirming can_transition
mark_confirming_lem s w (row, named) e = ground arith

abbrev pub to_completed : ℕ → ℕ → Settlement → Settlement
to_completed now ledger s = record s {
  status = SettlementStatus.completed;
  stellar_ledger = some ledger;
  confirmed_at = some now;
}

abbrev pub order_completed : Order → Order
order_completed o = record o { status = OrderStatus.completed }

-- The settlement's and the order's rows, before the reservation is consumed.
abbrev pub completing : ℕ → ℕ → Settlement → World → World
completing now ledger s w =
    set_orders (update (λ o. o.id == s.order_id) order_completed w.tables.orders) (
      set_settlements (update (λ x. x.id == s.id) (to_completed now ledger) w.tables.settlements) w)

-- The consumption of the reservation, after the settlement and the order have been written.
abbrev pub pay_out : Config → ℕ → ℕ → Settlement → World → Result (Option Reservation) × World
pay_out cfg now ledger s w =
    consume_reservation cfg now s.order_id (some s.settlement_id) s.stellar_transaction_hash
      (completing now ledger s w)

pub mark_completed_lem :
    (cfg : Config) (now ledger : ℕ) (s : Settlement) (w : World) (o : Order)
    (r : Option Reservation)
    → IsStored s.id s w
    → s.status ≡ SettlementStatus.confirming
    → find (λ x. x.id == s.order_id) w.tables.orders ≡ some o
    → (pay_out cfg now ledger s w).0 ≡ ok r
    → mark_completed cfg now s.id ledger w ≡ (
      ok (to_completed now ledger s),
      (audit_log Actor.system AuditAction.settlement_completed
          (some s.id)
          (pay_out cfg now ledger s w).1).1,
    )
unfolding mark_completed can_transition complete_in_tx audit_log
mark_completed_lem cfg now ledger s w o r (row, named) e order done = ground arith
