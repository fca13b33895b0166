-- ===== src/Machine/Payment.antt =====
-- `PaymentStateMachine` of modules/payments/payment.state-machine.ts.
use luminarail_backend.Base.{⊤, not, Bool, true, List, [], ◌∷◌, ◌===◌, includes, if◌then◌else◌}
use luminarail_backend.Store.Action.{Action, raise_if, invalid_payment_transition}
use luminarail_backend.Store.Status.{PaymentStatus, payment_status_enum}

abbrev pub allowed_transitions : PaymentStatus → List PaymentStatus
allowed_transitions PaymentStatus.created =
    PaymentStatus.pending ∷ PaymentStatus.processing ∷ PaymentStatus.succeeded
    ∷ PaymentStatus.failed ∷ PaymentStatus.cancelled ∷ PaymentStatus.expired ∷ []
allowed_transitions PaymentStatus.pending =
    PaymentStatus.processing ∷ PaymentStatus.succeeded ∷ PaymentStatus.failed
    ∷ PaymentStatus.cancelled ∷ PaymentStatus.expired ∷ []
allowed_transitions PaymentStatus.processing =
    PaymentStatus.succeeded ∷ PaymentStatus.failed ∷ PaymentStatus.cancelled ∷ PaymentStatus.expired
    ∷ []
allowed_transitions PaymentStatus.succeeded = PaymentStatus.refunded ∷ []
allowed_transitions PaymentStatus.failed = []
allowed_transitions PaymentStatus.cancelled = []
allowed_transitions PaymentStatus.expired = []
allowed_transitions PaymentStatus.refunded = []

unfoldable pub can_transition : PaymentStatus → PaymentStatus → Bool
can_transition from to = if from === to then true else includes (allowed_transitions from) to

abbrev pub validate_transition : PaymentStatus → PaymentStatus → Action ⊤
validate_transition from to = raise_if (not (can_transition from to)) invalid_payment_transition
