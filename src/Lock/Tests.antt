-- ===== src/Lock/Tests.antt =====
-- Instances of the theorems on the distributed lock.
use luminarail_backend.Base.{◌≡◌, refl, true, none, some, [], ◌∷◌, arith}
use luminarail_backend.Store.Sample.{sample_config}
use luminarail_backend.Store.Action.{ok}
use luminarail_backend.Lock.Redis.{set_nx, clean_expired}
use luminarail_backend.Lock.Service.{Lock, Shared, acquire}
use luminarail_backend.Lock.Live.{owner}
use luminarail_backend.Lock.Refinement.{Call, run, specify, call_refines}
use luminarail_backend.Lock.Trace.{Step, run_all, lock_excludes}

abbrev nothing_held : Shared
nothing_held = record { items = []; audit = [] }

abbrev lock : Lock
lock = record { key = 3; owner_token = 71; ttl = 20000; owned = true }

-- The lock of another worker, whose key has expired.
abbrev stale : Lock
stale = record { key = 3; owner_token = 70; ttl = 20000; owned = true }

call_refines_example :
    let (answer, after) = run sample_config true 1000 (Call.releasing stale) nothing_held in
    let (expected, owners) =
      specify sample_config true (Call.releasing stale) (owner 1000 nothing_held.items) in
    (answer ≡ expected) × (owner 1000 after.items 3 ≡ owners 3)
call_refines_example = call_refines sample_config true 1000 (Call.releasing stale) nothing_held 3

is_granted : (acquire sample_config true 1000 3 71 20000 nothing_held).0 ≡ ok (some lock)
unfolding acquire set_nx clean_expired
is_granted = refl

abbrev intruder : Step
intruder = record { reachable = true; time = 5000; call = Call.releasing stale }

lock_excludes_example :
    let after =
      run_all sample_config
        (intruder ∷ [])
        (acquire sample_config true 1000 3 71 20000 nothing_held).1 in
    ((acquire sample_config true 20999 3 72 20000 after).0 ≡ ok none)
    × (owner 20999 after.items 3 ≡ some 71)
lock_excludes_example =
    lock_excludes sample_config 1000 3 71 20000 nothing_held lock (intruder ∷ []) 20999 72 20000
      (omega arith) is_granted ((omega arith, omega arith), tt) (omega arith)
