-- ===== src/Lock/Service.antt =====
-- `DistributedLockService` of src/infrastructure/locks/distributed-lock.service.ts.
use luminarail_backend.Base.{
  ℕ, Bool, true, false, not, Option, none, some, List, [], ◌∷◌, ◌++◌, if◌then◌else◌,
}
use luminarail_backend.Store.Rows.{AuditEntry, Actor, AuditAction}
use luminarail_backend.Store.Config.{Config}
use luminarail_backend.Store.Action.{Result, ok, err, lock_unavailable}
use luminarail_backend.Lock.Redis.{Items, set_nx, eval_renew, eval_release}

-- `DistributedLock`, less its timer.
pub record Lock : Type 0 where
  pub key : ℕ
  pub owner_token : ℕ
  pub ttl : ℕ
  pub owned : Bool

-- What the service shares with the other processes, and the audit log.
pub record Shared : Type 0 where
  pub items : Items
  pub audit : List AuditEntry

abbrev pub log : AuditAction → List AuditEntry → List AuditEntry
log action audit =
    audit ++ record { actor = Actor.system; action = action; resource_id = none } ∷ []

-- What follows Redis' answer.
abbrev pub acquired : ℕ → ℕ → ℕ → Shared → Bool × Items → Result (Option Lock) × Shared
acquired k token ttl s (false, items) = (ok none, record s { items = items })
acquired k token ttl s (true, items) = (
  ok (some (record { key = k; owner_token = token; ttl = ttl; owned = true })),
  record { items = items; audit = log AuditAction.distributed_lock_acquired s.audit },
)

-- `reachable` is whether Redis answers; `token` is the fresh owner's token.
unfoldable pub acquire : Config → Bool → ℕ → ℕ → ℕ → ℕ → Shared → Result (Option Lock) × Shared
unfolding set_nx
acquire cfg reachable now k token ttl s =
    if reachable
    then acquired k token ttl s (set_nx now k token ttl s.items)
    else if cfg.locks_required
    then (err lock_unavailable, s)
    else (ok none, s)

abbrev pub mark_lost : Lock → Lock
mark_lost l = record l { owned = false }

-- The result, the lock and what is shared.
abbrev pub Outcome : Type 0
Outcome = Bool × Lock × Shared

abbrev pub renewed : Lock → Shared → Bool × Items → Outcome
renewed l s (true, items) = (true, l, record s { items = items })
renewed l s (false, items) = (false, mark_lost l, record s { items = items })

unfoldable pub renew : Bool → ℕ → Lock → Shared → Outcome
unfolding eval_renew
renew reachable now l s =
    if not l.owned
    then (false, l, s)
    else if reachable
    then renewed l s (eval_renew now l.key l.owner_token l.ttl s.items)
    else (false, mark_lost l, s)

abbrev pub released : Lock → Shared → Bool × Items → Outcome
released l s (answer, items) = (
  answer,
  mark_lost l,
  record { items = items; audit = log AuditAction.distributed_lock_released s.audit },
)

unfoldable pub release : Bool → ℕ → Lock → Shared → Outcome
unfolding eval_release
release reachable now l s =
    if not l.owned
    then (false, l, s)
    else if reachable
    then released l s (eval_release now l.key l.owner_token s.items)
    else (false, mark_lost l, s)
