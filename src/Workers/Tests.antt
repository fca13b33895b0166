-- ===== src/Workers/Tests.antt =====
-- Instances of the theorems on the workers.
use luminarail_backend.Base.{true, none}
use luminarail_backend.Lock.Guard.{LockAnswer}
use luminarail_backend.Store.Sample.{empty_world, sample_config}
use luminarail_backend.Liquidity.Invariant.{IsSound}
use luminarail_backend.Liquidity.Trace.{Call, perform_all, perform_all-IsSound, empty-IsSound}
use luminarail_backend.Base.{[], ◌∷◌}
use luminarail_backend.Int.{finite, pos}
use luminarail_backend.Store.Status.{Currency}
use luminarail_backend.Store.Rows.{World}
use luminarail_backend.Workers.Cleanup.{process_expired_reservations, sweep-IsSound}

-- A pool and a reservation of 400 USDC on it, made at 1000 for 15 minutes.
abbrev reserved : World
reserved =
    perform_all sample_config
      (Call.open_pool Currency.usdc 0
        ∷ Call.reserve 1000 (record {
          pool_id = 0;
          order_id = 9;
          amount = finite (pos 4000000000);
          expiry_minutes = none;
        })
        ∷ [])
      empty_world

reserved-IsSound : IsSound reserved
reserved-IsSound = perform_all-IsSound sample_config _ empty_world empty-IsSound

sweep-IsSound_example :
    IsSound
      (process_expired_reservations sample_config (LockAnswer.acquired true) 901000 none reserved).1
sweep-IsSound_example =
    sweep-IsSound sample_config (LockAnswer.acquired true) 901000 none reserved reserved-IsSound
