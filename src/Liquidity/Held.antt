-- ===== src/Liquidity/Held.antt =====
-- What the active reservations hold on a pool, and how it moves with the reservation table.
use luminarail_backend.Base.{
  ℕ, ◌<◌, ◌≡◌, ◌≢◌, true, false, refl, Bool, ◌&&◌, ◌||◌, some, inl, inr, List, [], ◌∷◌, ◌++◌, arith,
  find, update, All, Bool-cases, ◌==◌, ◌===◌, if◌then◌else◌, found_here,
}
use luminarail_backend.Int.{ℤ, pos, ◌+ℤ◌, ◌≤ℤ◌, integers}
use luminarail_backend.Store.Status.{ReservationStatus, reservation_status_enum}
use luminarail_backend.Store.Rows.{Reservation}

-- RESERVED and CONFIRMED reservations hold their amount.
abbrev pub is_active : ReservationStatus → Bool
is_active s = s === ReservationStatus.reserved || s === ReservationStatus.confirmed

pub weight : ℕ → Reservation → ℤ
weight k r = if r.pool_id == k && is_active r.status then r.amount else pos 0

pub held : ℕ → List Reservation → ℤ
held k [] = pos 0
held k (r ∷ rs) = weight k r +ℤ held k rs

abbrev pub IsPositive : Reservation → Type 0
IsPositive r = pos 1 ≤ℤ r.amount

weight_nonneg : (k : ℕ) (r : Reservation) → IsPositive r → pos 0 ≤ℤ weight k r
unfolding weight
weight_nonneg k r h = ground arith

pub held_nonneg : (k : ℕ) (rs : List Reservation) → All IsPositive rs → pos 0 ≤ℤ held k rs
unfolding held
held_nonneg k [] h = omega arith
held_nonneg k (r ∷ rs) h = omega (integers, weight_nonneg k r h.0, held_nonneg k rs h.1)

-- No reservation holds more than all of them together.
pub weight-le-held :
    (k : ℕ) (p : Reservation → Bool) (rs : List Reservation) (r : Reservation)
    → All IsPositive rs
    → find p rs ≡ some r
    → weight k r ≤ℤ held k rs
unfolding held
weight-le-held k p [] r h e = cc
weight-le-held k p (x ∷ xs) r h e = elim (Bool-cases (p x)) [
  | inl hit ↦ rw (← found_here p x xs e hit) (omega (integers, held_nonneg k xs h.1))
  | inr miss ↦ omega (integers, weight_nonneg k x h.0, weight-le-held k p xs r h.1 (rw miss at e))
]

pub held-update :
    (k : ℕ) (p : Reservation → Bool) (f : Reservation → Reservation) (rs : List Reservation)
    (r : Reservation)
    → find p rs ≡ some r
    → held k (update p f rs) +ℤ weight k r ≡ held k rs +ℤ weight k (f r)
unfolding held
held-update k p f [] r e = cc
held-update k p f (x ∷ xs) r e = elim (Bool-cases (p x)) [
  | inl hit ↦ rw (hit, ← found_here p x xs e hit) (omega integers)
  | inr miss ↦ rw miss (grind (integers, held-update k p f xs r (rw miss at e)))
]

pub held-append :
    (k : ℕ) (r : Reservation) (rs : List Reservation)
    → held k (rs ++ r ∷ []) ≡ held k rs +ℤ weight k r
unfolding held
held-append k r [] = omega integers
held-append k r (x ∷ xs) = grind (integers, held-append k r xs)

weight_absent : (k : ℕ) (r : Reservation) → r.pool_id < k → weight k r ≡ pos 0
unfolding weight
weight_absent k r h = ground arith

pub weight_other : (k : ℕ) (r : Reservation) → k ≢ r.pool_id → weight k r ≡ pos 0
unfolding weight
weight_other k r h = ground arith

pub weight_active : (r : Reservation) → is_active r.status ≡ true → weight r.pool_id r ≡ r.amount
unfolding weight
weight_active r h = ground arith

pub weight_inactive : (k : ℕ) (r : Reservation) → is_active r.status ≡ false → weight k r ≡ pos 0
unfolding weight
weight_inactive k r h = ground arith

-- A change among the active statuses moves nothing.
pub weight_status :
    (k : ℕ) (r : Reservation) (s : ReservationStatus)
    → is_active r.status ≡ true
    → is_active s ≡ true
    → weight k (record r { status = s }) ≡ weight k r
unfolding weight
weight_status k r s h h' = ground arith

-- A pool that no reservation names is held by none.
pub held_absent : (k : ℕ) (rs : List Reservation) → All (λ r. r.pool_id < k) rs → held k rs ≡ pos 0
unfolding held
held_absent k [] h = refl
held_absent k (r ∷ rs) h = grind (integers, weight_absent k r h.0, held_absent k rs h.1)
