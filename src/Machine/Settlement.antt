-- ===== src/Machine/Settlement.antt =====
-- `SettlementStateMachine` of modules/settlements/settlements.state-machine.ts.
use luminarail_backend.Base.{⊤, not, Bool, true, List, [], ◌∷◌, ◌===◌, includes, if◌then◌else◌}
use luminarail_backend.Store.Action.{Action, raise_if, invalid_settlement_transition}
use luminarail_backend.Store.Status.{SettlementStatus, settlement_status_enum}

abbrev pub allowed_transitions : SettlementStatus → List SettlementStatus
allowed_transitions SettlementStatus.pending =
    SettlementStatus.submitting ∷ SettlementStatus.failed ∷ []
allowed_transitions SettlementStatus.submitting =
    SettlementStatus.submitted ∷ SettlementStatus.pending ∷ SettlementStatus.failed
    ∷ SettlementStatus.requires_reconciliation ∷ []
allowed_transitions SettlementStatus.submitted =
    SettlementStatus.confirming ∷ SettlementStatus.completed ∷ SettlementStatus.failed
    ∷ SettlementStatus.requires_reconciliation ∷ []
allowed_transitions SettlementStatus.confirming =
    SettlementStatus.completed ∷ SettlementStatus.failed ∷ SettlementStatus.requires_reconciliation
    ∷ []
allowed_transitions SettlementStatus.completed = []
allowed_transitions SettlementStatus.failed = []
allowed_transitions SettlementStatus.requires_reconciliation =
    SettlementStatus.confirming ∷ SettlementStatus.completed ∷ SettlementStatus.failed
    ∷ SettlementStatus.pending ∷ []

unfoldable pub can_transition : SettlementStatus → SettlementStatus → Bool
can_transition from to = if from === to then true else includes (allowed_transitions from) to

abbrev pub validate_transition : SettlementStatus → SettlementStatus → Action ⊤
validate_transition from to = raise_if (not (can_transition from to)) invalid_settlement_transition
