-- ===== src/Lock/Guard.antt =====
-- How the services use `DistributedLockService` of
-- src/infrastructure/locks/distributed-lock.service.ts: they acquire a lock, work in a `try` block and
-- release the lock in its `finally`.
use luminarail_backend.Base.{
  ℕ, Bool, true, false, not, ◌&&◌, none, List, [], length, if◌then◌else◌, ◌≡◌, refl, ◌⊎◌, inl, inr,
  Bool-cases,
}
use luminarail_backend.Store.Rows.{World, Actor, AuditAction}
use luminarail_backend.Store.Config.{Config}
use luminarail_backend.Store.Action.{
  ok, err, Action, pure, raise, audit_log, lock_unavailable, ◌>>=◌, ◌>>◌,
}

-- How a lock is answered for. An acquired lock comes with whether its release reaches Redis with the
-- lock still owned.
pub data LockAnswer : Type 0 where
  acquired : Bool → LockAnswer
  taken unreachable : LockAnswer

abbrev pub is_acquired : LockAnswer → Bool
is_acquired (LockAnswer.acquired _) = true
is_acquired LockAnswer.taken = false
is_acquired LockAnswer.unreachable = false

abbrev pub is_unreachable : LockAnswer → Bool
is_unreachable (LockAnswer.acquired _) = false
is_unreachable LockAnswer.taken = false
is_unreachable LockAnswer.unreachable = true

-- `DistributedLockService.acquire`: whether there is a lock.
unfoldable pub take_lock : Config → LockAnswer → Action Bool
unfolding audit_log
take_lock cfg (LockAnswer.acquired _) =
    audit_log Actor.system AuditAction.distributed_lock_acquired none >> pure true
take_lock cfg LockAnswer.taken = pure false
take_lock cfg LockAnswer.unreachable =
    if cfg.locks_required then raise lock_unavailable else pure false

-- `if (lock) { await DistributedLockService.release(lock) }`
unfoldable pub give_back : LockAnswer → World → World
unfolding audit_log
give_back (LockAnswer.acquired true) w =
    (audit_log Actor.system AuditAction.distributed_lock_released none w).1
give_back (LockAnswer.acquired false) w = w
give_back LockAnswer.taken w = w
give_back LockAnswer.unreachable w = w

-- `try { m } finally { … }`: the lock is given back also when the block throws.
unfoldable pub finally_release : {A : Type 0} → LockAnswer → Action A → Action A
unfolding give_back
finally_release lock m w = let (r, v) = m w in (r, give_back lock v)

-- A worker's sweep: without the lock where locks are required, it does nothing.
unfoldable pub locked_sweep : {A : Type 0} → Config → LockAnswer → Action (List A) → Action (List A)
unfolding take_lock finally_release
locked_sweep cfg lock m = do
  got ← take_lock cfg lock
  if not got && cfg.locks_required then pure [] else finally_release lock m

-- Taking a lock writes the audit log alone.
pub take_lock-tables :
    (cfg : Config) (lock : LockAnswer) (w : World)
    → record (take_lock cfg lock w).1 { audit = w.audit } ≡ w
unfolding take_lock
take_lock-tables cfg (LockAnswer.acquired b) w = refl
take_lock-tables cfg LockAnswer.taken w = refl
take_lock-tables cfg LockAnswer.unreachable w = elim (Bool-cases cfg.locks_required) [
  | inl required ↦ rw required refl
  | inr optional ↦ rw optional refl
]

-- So does giving it back.
pub give_back-tables :
    (lock : LockAnswer) (w : World) → record (give_back lock w) { audit = w.audit } ≡ w
unfolding give_back
give_back-tables (LockAnswer.acquired true) w = refl
give_back-tables (LockAnswer.acquired false) w = refl
give_back-tables LockAnswer.taken w = refl
give_back-tables LockAnswer.unreachable w = refl

-- A sweep whose work returns, whatever it has to work on, throws only if Redis is unreachable and locks
-- are required, and does nothing only for want of a lock that is required.
pub locked_sweep-cases :
    {A : Type 0} (cfg : Config) (lock : LockAnswer) (m : Action (List A)) (n : World → ℕ)
    (w : World)
    → ((v : World)
        → v.tables ≡ w.tables
        → (results : List A) × ((m v).0 ≡ ok results) × (length results ≡ n w))
    → ((is_unreachable lock && cfg.locks_required ≡ true)
        × ((locked_sweep cfg lock m w).0 ≡ err lock_unavailable))
      ⊎ ((is_unreachable lock && cfg.locks_required ≡ false)
          × (results : List A) × ((locked_sweep cfg lock m w).0 ≡ ok results)
          × (length results ≡ (if not (is_acquired lock) && cfg.locks_required then 0 else n w)))
unfolding locked_sweep take_lock audit_log
locked_sweep-cases cfg (LockAnswer.acquired b) m n w works =
    let (results, done, count) = works (take_lock cfg (LockAnswer.acquired b) w).1 refl in
    inr (refl, results, done, count)
locked_sweep-cases cfg LockAnswer.taken m n w works = elim (Bool-cases cfg.locks_required) [
  | inl required ↦ rw required (inr (refl, [], refl, refl))
  | inr optional ↦
      let (results, done, count) = works w refl in rw optional (inr (refl, results, done, count))
]
locked_sweep-cases cfg LockAnswer.unreachable m n w works = elim (Bool-cases cfg.locks_required) [
  | inl required ↦ rw required (inl (refl, refl))
  | inr optional ↦
      let (results, done, count) = works w refl in rw optional (inr (refl, results, done, count))
]
