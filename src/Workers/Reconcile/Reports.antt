-- ===== src/Workers/Reconcile/Reports.antt =====
-- The sweep of the reconciliation daemon reports on every settlement that it selects.
use luminarail_backend.Base.{
  ℕ, suc, ◌≡◌, refl, ap, ◌∙◌, ◌⊎◌, true, false, not, ◌&&◌, Option, List, [], ◌∷◌, length,
  if◌then◌else◌,
}
use luminarail_backend.Store.Rows.{World, Settlement}
use luminarail_backend.Store.Config.{Config}
use luminarail_backend.Store.Action.{
  ok, err, lock_unavailable, gets, pure, recover, recover-returns, bind-returns, ◌>>=◌,
}
use luminarail_backend.Lock.Guard.{LockAnswer, is_acquired, is_unreachable, locked_sweep-cases}
use luminarail_backend.Stellar.Confirmation.{RpcAnswer}
use luminarail_backend.Workers.Reconcile.Settlement.{Reconciled, reconcile_single_settlement}
use luminarail_backend.Workers.Reconcile.Sweep.{
  reconcile_each, process_reconciliation, selected, or_default, not_reconciled,
}

each_returns :
    (cfg : Config) (now max_hours : ℕ) (rpc : ℕ → RpcAnswer) (ss : List Settlement) (w : World)
    → (results : List Reconciled) × ((reconcile_each cfg now max_hours rpc ss w).0 ≡ ok results)
      × (length results ≡ length ss)
unfolding reconcile_each
each_returns cfg now max_hours rpc [] w = ([], refl, refl)
each_returns cfg now max_hours rpc (s ∷ ss) w =
    let first =
      recover (reconcile_single_settlement cfg now max_hours rpc s.id) (pure (not_reconciled s)) in
    let rest_of = reconcile_each cfg now max_hours rpc ss in
    let (r, done) =
      recover-returns (reconcile_single_settlement cfg now max_hours rpc s.id) (not_reconciled s)
        w in
    let (rs, rest, same) = each_returns cfg now max_hours rpc ss (first w).1 in
    (
      r ∷ rs,
      bind-returns first (λ result. rest_of >>= λ results. pure (result ∷ results)) w done
          (bind-returns rest_of (λ results. pure (r ∷ results)) (first w).1 rest refl),
      ap suc same,
    )

selection-tables :
    (by_update : List Settlement → List Settlement) (batch_size : Option ℕ) (v w : World)
    → v.tables ≡ w.tables
    → selected by_update batch_size v ≡ selected by_update batch_size w
selection-tables by_update batch_size v w same = rw same refl

-- The sweep throws only where locks are required and Redis cannot be reached, and then the error that
-- the lock is unavailable. Otherwise, whatever the reconciliation of a settlement does, it returns one
-- result for each settlement that it has selected, or none at all if locks are required and another
-- process holds the lock.
pub sweep_reports :
    (cfg : Config) (lock : LockAnswer) (by_update : List Settlement → List Settlement) (now : ℕ)
    (rpc : ℕ → RpcAnswer) (batch_size max_hours : Option ℕ) (w : World)
    → ((is_unreachable lock && cfg.locks_required ≡ true)
        × ((process_reconciliation cfg lock by_update now rpc batch_size max_hours w).0
            ≡ err lock_unavailable))
      ⊎ ((is_unreachable lock && cfg.locks_required ≡ false)
          × (results : List Reconciled) × ((process_reconciliation cfg lock by_update now rpc
                batch_size max_hours w).0
              ≡ ok results)
          × (length results ≡ (
              if not (is_acquired lock) && cfg.locks_required
              then 0
              else length (selected by_update batch_size w))))
unfolding process_reconciliation
sweep_reports cfg lock by_update now rpc batch_size max_hours w =
    locked_sweep-cases cfg lock
      (gets (selected by_update batch_size)
        >>= reconcile_each cfg now (or_default 24 max_hours) rpc)
      (λ v. length (selected by_update batch_size v)) w
      (λ v same.
        let (results, done, count) =
          each_returns cfg now (or_default 24 max_hours) rpc (selected by_update batch_size v) v in
        (results, done, count ∙ ap length (selection-tables by_update batch_size v w same)))
