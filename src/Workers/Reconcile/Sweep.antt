-- ===== src/Workers/Reconcile/Sweep.antt =====
-- `processReconciliation` of workers/reconciliation.daemon.ts.
use luminarail_backend.Base.{
  ℕ, Bool, true, false, Option, none, some, List, [], ◌∷◌, select, take, includes, ◌==◌,
  if◌then◌else◌,
}
use luminarail_backend.Store.Status.{SettlementStatus, settlement_status_enum}
use luminarail_backend.Store.Rows.{World, Settlement}
use luminarail_backend.Store.Config.{Config}
use luminarail_backend.Store.Action.{Action, pure, gets, recover, ◌>>=◌}
use luminarail_backend.Lock.Guard.{LockAnswer, locked_sweep}
use luminarail_backend.Stellar.Confirmation.{RpcAnswer}
use luminarail_backend.Workers.Reconcile.Settlement.{Reconciled, reconcile_single_settlement}

-- What the sweep reports of a settlement whose reconciliation throws.
abbrev pub not_reconciled : Settlement → Reconciled
not_reconciled s = record {
  settlement_id = s.settlement_id;
  order_id = s.order_id;
  previous_status = s.status;
  new_status = s.status;
  reconciled = false;
  has_error = true;
}

unfoldable pub reconcile_each :
    Config → ℕ → ℕ → (ℕ → RpcAnswer) → List Settlement → Action (List Reconciled)
unfolding reconcile_single_settlement
reconcile_each cfg now max_hours rpc [] = pure []
reconcile_each cfg now max_hours rpc (s ∷ ss) = do
  result ←
      recover (reconcile_single_settlement cfg now max_hours rpc s.id) (pure (not_reconciled s))
  results ← reconcile_each cfg now max_hours rpc ss
  pure (result ∷ results)

abbrev pub is_unsettled : Settlement → Bool
is_unsettled s =
    includes
      (SettlementStatus.submitting ∷ SettlementStatus.submitted ∷ SettlementStatus.confirming
        ∷ SettlementStatus.requires_reconciliation ∷ [])
      s.status

-- `options.… || d`
abbrev pub or_default : ℕ → Option ℕ → ℕ
or_default d none = d
or_default d (some n) = if n == 0 then d else n

-- `by_update` sorts by the column `updatedAt`, which the rows of the model leave out.
abbrev pub selected : (List Settlement → List Settlement) → Option ℕ → World → List Settlement
selected by_update batch_size w =
    take (or_default 10 batch_size) (by_update (select is_unsettled w.tables.settlements))

unfoldable pub process_reconciliation :
    Config
    → LockAnswer
    → (List Settlement → List Settlement)
    → ℕ
    → (ℕ → RpcAnswer)
    → Option ℕ
    → Option ℕ
    → Action (List Reconciled)
unfolding reconcile_each locked_sweep
process_reconciliation cfg lock by_update now rpc batch_size max_stale_age_hours =
    locked_sweep cfg lock (
      gets (selected by_update batch_size)
      >>= reconcile_each cfg now (or_default 24 max_stale_age_hours) rpc)
