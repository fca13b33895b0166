-- ===== src/Settlement/Claims.antt =====
-- The worker's claim of a settlement, against another worker that claims it at the same time.
use luminarail_backend.Base.{
  ℕ, ◌+◌, ◌≡◌, refl, Bool, true, false, ◌&&◌, some, find, update_all, select, length,
  select-update_all, update_all-none, find-update_all, ◌==◌, ◌===◌, ◌||◌, arith,
}
use luminarail_backend.Store.Status.{SettlementStatus, settlement_status_enum}
use luminarail_backend.Store.Rows.{World, Settlement}
use luminarail_backend.Store.Action.{ok}
use luminarail_backend.Machine.Settlement.{can_transition}
use luminarail_backend.Settlement.Marks.{mark_submitting}

-- The test of the conditional update, and what it writes.
abbrev is_claimable : Settlement → Settlement → Bool
is_claimable s x = x.id == s.id && x.status === s.status

abbrev pub claim : Settlement → Settlement
claim s = record s { status = SettlementStatus.submitting; attempt_count = s.attempt_count + 1 }

module _ (k : ℕ) (s : Settlement) (w : World)
    (found : find (λ x. x.id == k || x.settlement_id == k) w.tables.settlements ≡ some s)
    (row : find (λ x. x.id == s.id) w.tables.settlements ≡ some s)
    (pending : s.status ≡ SettlementStatus.pending) where
  -- A claim that nobody disturbs.
  alone :
      (mark_submitting (λ v. v) k w).1.tables.settlements
      ≡ update_all (is_claimable s) claim w.tables.settlements
  unfolding mark_submitting can_transition
  alone = ground arith

  -- A claim whose row another process has claimed meanwhile.
  late :
      (between : World → World) (c : Settlement)
      → length (select (is_claimable s) (between w).tables.settlements) ≡ 0
      → find (λ x. x.id == s.id) (between w).tables.settlements ≡ some c
      → c.status ≡ SettlementStatus.submitting
      → mark_submitting between k w ≡ (ok c, between w)
  unfolding mark_submitting can_transition
  late between c gone current claimed =
      let same = update_all-none (is_claimable s) claim (between w).tables.settlements gone in
      ground arith

claimed_status :
    (s x : Settlement) → s.status ≡ SettlementStatus.pending → is_claimable s (claim x) ≡ false
claimed_status s x pending = ground arith

self_claimable : (s : Settlement) → is_claimable s s ≡ true
self_claimable s = ground arith

-- Two workers read the same PENDING settlement, and one claims it before the other's conditional
-- update: the later one writes nothing at all and is handed the row that the first has claimed, so
-- the settlement is SUBMITTING and its attempts have gone up by one, not by two.
pub claim_once :
    (k : ℕ) (s : Settlement) (w : World)
    → find (λ x. x.id == k || x.settlement_id == k) w.tables.settlements ≡ some s
    → find (λ x. x.id == s.id) w.tables.settlements ≡ some s
    → s.status ≡ SettlementStatus.pending
    → let first = (mark_submitting (λ v. v) k w).1 in
      (mark_submitting (λ v. (mark_submitting (λ v. v) k v).1) k w ≡ (ok (claim s), first))
      × (find (λ x. x.id == s.id) first.tables.settlements ≡ some (claim s))
      × ((claim s).attempt_count ≡ s.attempt_count + 1)
claim_once k s w found row pending =
    let first = (mark_submitting (λ v. v) k w).1 in
    let rows = alone k s w found row pending in
    let gone : length (select (is_claimable s) first.tables.settlements) ≡ 0 = rw rows (
      select-update_all (is_claimable s) claim w.tables.settlements
        (λ x hit. claimed_status s x pending)) in
    let current : find (λ x. x.id == s.id) first.tables.settlements ≡ some (claim s) = rw rows (
      find-update_all (is_claimable s) (λ x. x.id == s.id) claim w.tables.settlements s row
        (self_claimable s) (λ x. refl)) in
    (
      late k s w found row pending (λ v. (mark_submitting (λ v. v) k v).1) (claim s) gone current
          refl,
      current,
      refl,
    )
