-- ===== src/Machine/Refund.antt =====
-- `RefundStateMachine` of modules/refunds/refund.state-machine.ts.
use luminarail_backend.Base.{
  ⊤, not, Bool, true, ◌||◌, List, [], ◌∷◌, ◌===◌, includes, if◌then◌else◌,
}
use luminarail_backend.Store.Action.{Action, raise_if, invalid_refund_transition}
use luminarail_backend.Store.Status.{RefundStatus, refund_status_enum}

abbrev pub allowed_transitions : RefundStatus → List RefundStatus
allowed_transitions RefundStatus.pending =
    RefundStatus.pending ∷ RefundStatus.processing ∷ RefundStatus.cancelled ∷ []
allowed_transitions RefundStatus.processing =
    RefundStatus.processing ∷ RefundStatus.succeeded ∷ RefundStatus.failed ∷ []
allowed_transitions RefundStatus.succeeded = RefundStatus.succeeded ∷ []
allowed_transitions RefundStatus.failed = RefundStatus.failed ∷ []
allowed_transitions RefundStatus.cancelled = RefundStatus.cancelled ∷ []

unfoldable pub can_transition : RefundStatus → RefundStatus → Bool
can_transition from to = if from === to then true else includes (allowed_transitions from) to

abbrev pub is_terminal : RefundStatus → Bool
is_terminal status =
    status === RefundStatus.succeeded
    || status === RefundStatus.failed
    || status === RefundStatus.cancelled

abbrev pub validate_transition : RefundStatus → RefundStatus → Action ⊤
validate_transition from to = raise_if (not (can_transition from to)) invalid_refund_transition
