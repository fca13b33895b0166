-- ===== src/Store/Sample.antt =====
-- Concrete settings and an empty database, for the tests.
use luminarail_backend.Base.{false, []}
use luminarail_backend.Int.{pos}
use luminarail_backend.Store.Rows.{World, Tables}
use luminarail_backend.Store.Config.{Config}

abbrev pub empty_tables : Tables
empty_tables = record {
  pools = [];
  reservations = [];
  treasury = [];
  quotes = [];
  orders = [];
  payments = [];
  refunds = [];
  settlements = [];
  transactions = [];
  webhook_events = [];
}

abbrev pub empty_world : World
empty_world = record { tables = empty_tables; audit = []; pool_states = []; next_id = 0 }

-- Thresholds in units of 10^-7 USDC: warn at 2,000 USDC, critical at 500.
abbrev pub sample_config : Config
sample_config = record {
  network = 0;
  signer_public_key = 77;
  locks_required = false;
  emergency_global_pause = false;
  warn_threshold = pos 20000000000;
  critical_threshold = pos 5000000000;
  min_settlement = pos 10000000;
  max_single_settlement = pos 10000000000;
  max_hourly_outflow = pos 20000000000;
  max_daily_outflow = pos 50000000000;
}
