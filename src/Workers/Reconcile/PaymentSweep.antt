-- ===== src/Workers/Reconcile/PaymentSweep.antt =====
-- `processPaymentReconciliation` of workers/reconciliation.daemon.ts.
use luminarail_backend.Base.{
  ℕ, ◌+◌, ◌*◌, Bool, false, ◌&&◌, Option, some, List, [], ◌∷◌, select, take, leb, ◌===◌,
}
use luminarail_backend.Int.{ℤ}
use luminarail_backend.Store.Status.{
  OrderStatus, order_status_enum, PaymentStatus, payment_status_enum, refund_status_enum,
  currency_enum,
}
use luminarail_backend.Store.Rows.{Payment}
use luminarail_backend.Store.Config.{Config}
use luminarail_backend.Store.Action.{Action, pure, gets, recover, ◌>>=◌}
use luminarail_backend.Lock.Guard.{LockAnswer, locked_sweep}
use luminarail_backend.Workers.Reconcile.Sweep.{or_default}
use luminarail_backend.Workers.Reconcile.Payment.{
  ActionTaken, PaymentResult, Verified, reconcile_single_payment_order,
}

-- What the sweep reports of a payment whose reconciliation throws.
abbrev pub not_verified : Payment → PaymentResult
not_verified payment = record {
  order_id = payment.order_id;
  reference = some payment.reference;
  previous_status = OrderStatus.awaiting_payment;
  new_status = OrderStatus.awaiting_payment;
  reconciled = false;
  action = ActionTaken.deferred;
}

unfoldable pub verify_each :
    Config → ℕ → (ℤ → ℤ) → (ℕ → Option Verified) → List Payment → Action (List PaymentResult)
unfolding reconcile_single_payment_order
verify_each cfg now round4 verify [] = pure []
verify_each cfg now round4 verify (p ∷ ps) = do
  result ←
      recover (reconcile_single_payment_order cfg now round4 verify p.order_id)
        (pure (not_verified p))
  results ← verify_each cfg now round4 verify ps
  pure (result ∷ results)

abbrev pub is_overdue : ℕ → ℕ → Payment → Bool
is_overdue now minutes p =
    p.status === PaymentStatus.pending && leb (p.created_at + minutes * 60 * 1000) now

-- `by_creation` sorts by `createdAt`.
unfoldable pub process_payment_reconciliation :
    Config
    → LockAnswer
    → (List Payment → List Payment)
    → ℕ
    → (ℤ → ℤ)
    → (ℕ → Option Verified)
    → Option ℕ
    → Option ℕ
    → Action (List PaymentResult)
unfolding verify_each locked_sweep
process_payment_reconciliation cfg lock by_creation now round4 verify batch_size min_age =
    locked_sweep cfg lock (
      gets (λ w.
        take (or_default 10 batch_size)
          (by_creation (select (is_overdue now (or_default 5 min_age)) w.tables.payments)))
      >>= verify_each cfg now round4 verify)
