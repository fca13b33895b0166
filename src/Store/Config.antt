-- ===== src/Store/Config.antt =====
-- The settings of config/index.ts that the services read. Amounts count 10^-7 USDC.
use luminarail_backend.Base.{ℕ, Bool}
use luminarail_backend.Int.{ℤ}

pub record Config : Type 0 where
  pub network : ℕ
  pub signer_public_key : ℕ
  -- `config.redis?.requireDistributedLocks || config.env === 'production'`
  pub locks_required : Bool
  pub emergency_global_pause : Bool
  pub warn_threshold : ℤ
  pub critical_threshold : ℤ
  pub min_settlement : ℤ
  pub max_single_settlement : ℤ
  pub max_hourly_outflow : ℤ
  pub max_daily_outflow : ℤ
