-- ===== src/Liquidity/Telemetry.antt =====
-- `TreasuryTelemetryService` of modules/liquidity/treasury-telemetry.service.ts: alerts on a pool's
-- available balance, emitted only when the alert state changes.
use luminarail_backend.Base.{
  ℕ, not, Option, none, some, List, ◌∷◌, find, ◌==◌, ◌===◌, if◌then◌else◌,
}
use luminarail_backend.Int.{ℤ, lte}
use luminarail_backend.Store.Status.{AlertState, alert_state_enum}
use luminarail_backend.Store.Rows.{Pool, PoolState, World, AuditAction, Actor}
use luminarail_backend.Store.Config.{Config}
use luminarail_backend.Store.Action.{Action, pure, gets, modify, when, audit_log, ◌>>=◌, ◌>>◌}

-- `poolStates.get(id) || 'HEALTHY'`
abbrev pub state_of : ℕ → List PoolState → AlertState
state_of k states = elim (find (λ s. s.pool_id == k) states) [
  | none ↦ AlertState.healthy
  | some s ↦ s.state
]

-- `poolStates.set(id, state)`: the newest entry stands first.
abbrev pub set_state : ℕ → AlertState → World → World
set_state k s w = record w { pool_states = record { pool_id = k; state = s } ∷ w.pool_states }

abbrev pub classify : Config → ℤ → AlertState
classify cfg available =
    if lte available cfg.critical_threshold
    then AlertState.critical
    else if lte available cfg.warn_threshold
    then AlertState.warning
    else AlertState.healthy

abbrev pub alert_action : AlertState → AuditAction
alert_action AlertState.critical = AuditAction.treasury_low_balance_critical
alert_action AlertState.warning = AuditAction.treasury_low_balance_warn
alert_action AlertState.healthy = AuditAction.treasury_balance_recovered

-- Returns the action taken, if any.
unfoldable pub evaluate_pool_balance : Config → Pool → Action (Option AuditAction)
unfolding audit_log
evaluate_pool_balance cfg pool = do
  states ← gets (λ w. w.pool_states)
  let previous_state = state_of pool.id states
  let new_state = classify cfg pool.available_balance
  let changed = not (previous_state === new_state)
  when changed (modify (set_state pool.id new_state))
  when changed (audit_log Actor.system (alert_action new_state) none)
  pure (if changed then some (alert_action new_state) else none)
