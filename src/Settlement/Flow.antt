-- ===== src/Settlement/Flow.antt =====
-- What every change of a settlement's status respects.
use luminarail_backend.Base.{ℕ, true, false, ◌≡◌, refl, none, some, find, ◌==◌, ◌||◌}
use luminarail_backend.Store.Status.{SettlementStatus, settlement_status_enum}
use luminarail_backend.Store.Rows.{World, Settlement}
use luminarail_backend.Store.Config.{Config}
use luminarail_backend.Store.Action.{Action, ◌>>=◌, ◌>>◌, ok, err, invalid_settlement_transition}
use luminarail_backend.Machine.Settlement.{can_transition}
use luminarail_backend.Settlement.Service.{get_settlement_by_id}
use luminarail_backend.Settlement.Marks.{
  mark_submitted, mark_confirming, mark_completed, mark_failed, mark_requires_reconciliation,
}

-- The calls that write a status after they have checked the change.
pub data Mark : Type 0 where
  submitted : ℕ → ℕ → Mark
  confirming : Mark
  completed : Config → ℕ → ℕ → Mark
  failed : ℕ → Mark
  requires_reconciliation : ℕ → Mark

abbrev pub target : Mark → SettlementStatus
target (Mark.submitted now hash) = SettlementStatus.submitted
target Mark.confirming = SettlementStatus.confirming
target (Mark.completed cfg now ledger) = SettlementStatus.completed
target (Mark.failed reason) = SettlementStatus.failed
target (Mark.requires_reconciliation reason) = SettlementStatus.requires_reconciliation

unfoldable pub run_mark : Mark → ℕ → Action Settlement
run_mark (Mark.submitted now hash) k = mark_submitted now k hash
run_mark Mark.confirming k = mark_confirming k
run_mark (Mark.completed cfg now ledger) k = mark_completed cfg now k ledger
run_mark (Mark.failed reason) k = mark_failed k reason
run_mark (Mark.requires_reconciliation reason) k = mark_requires_reconciliation k reason

-- What a call that changes a status reads first.
module _ (k : ℕ) (s : Settlement) (w : World)
    (found : find (λ x. x.id == k || x.settlement_id == k) w.tables.settlements ≡ some s) where
  got : get_settlement_by_id k none true w ≡ (ok s, w)
  unfolding get_settlement_by_id
  got = rw found refl

-- A call that would change a settlement in a way that the state machine forbids throws and leaves
-- the whole world as it was, whichever of the five calls it is.
pub forbidden_mark :
    (m : Mark) (k : ℕ) (s : Settlement) (w : World)
    → find (λ x. x.id == k || x.settlement_id == k) w.tables.settlements ≡ some s
    → can_transition s.status (target m) ≡ false
    → run_mark m k w ≡ (err invalid_settlement_transition, w)
unfolding run_mark mark_submitted mark_confirming mark_completed mark_failed
    mark_requires_reconciliation
forbidden_mark (Mark.submitted now hash) k s w found bad =
    rw (◌>>=◌, got k s w found) (rw (◌>>=◌, ◌>>◌, bad) (rw (got k s w found, bad) refl))
forbidden_mark Mark.confirming k s w found bad =
    rw (◌>>=◌, got k s w found) (rw (◌>>=◌, ◌>>◌, bad) (rw (got k s w found, bad) refl))
forbidden_mark (Mark.completed cfg now ledger) k s w found bad =
    rw (◌>>=◌, got k s w found) (rw (◌>>=◌, ◌>>◌, bad) (rw (got k s w found, bad) refl))
forbidden_mark (Mark.failed reason) k s w found bad =
    rw (◌>>=◌, got k s w found) (rw (◌>>=◌, ◌>>◌, bad) (rw (got k s w found, bad) refl))
forbidden_mark (Mark.requires_reconciliation reason) k s w found bad =
    rw (◌>>=◌, got k s w found) (rw (◌>>=◌, ◌>>◌, bad) (rw (got k s w found, bad) refl))
