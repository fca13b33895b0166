-- ===== src/Liquidity/Safety/Atomic.antt =====
-- Transactions and the invariant.
use luminarail_backend.Base.{
  find, some, ℕ, ◌==◌, OnFound, OnFound-here, find-key, ◌≤◌, ◌≡◌, inl, inr, arith,
}
use luminarail_backend.Store.Rows.{Reservation, World}
use luminarail_backend.Store.Action.{Action, transaction, ok, Result-cases}
use luminarail_backend.Liquidity.Invariant.{IsSound, IsSound-at, sound_weaken}

-- A transaction keeps the invariant if its successful end does, since a throw restores the tables.
pub transaction-IsSound :
    {A : Type 0} (m : Action A) (w : World)
    → IsSound w
    → w.next_id ≤ (m w).1.next_id
    → ((a : A) → (m w).0 ≡ ok a → IsSound (m w).1)
    → IsSound (transaction m w).1
transaction-IsSound m w h ids good = elim (Result-cases (m w).0) [
  | inl (e, threw) ↦
      IsSound-at (transaction m w).1 (sound_weaken w.next_id (m w).1.next_id ids h) (ground arith)
        (ground arith) (ground arith)
  | inr (a, returned) ↦
      IsSound-at (transaction m w).1 (good a returned) (ground arith) (ground arith) (ground arith)
]

-- The reservation that an order id finds is the one that its own id finds.
pub found_by_id :
    (order_id : ℕ) (w : World)
    → IsSound w
    → OnFound
        (λ (r : Reservation).
          find (λ (x : Reservation). x.id == r.id) w.tables.reservations ≡ some r)
        (find (λ r. r.order_id == order_id) w.tables.reservations)
found_by_id order_id w h = OnFound-here _ (λ r found.
    find-key (λ (x : Reservation). x.id) (λ r. r.order_id == order_id) w.tables.reservations
      h.ids_distinct found)
