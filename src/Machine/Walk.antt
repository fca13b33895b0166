-- ===== src/Machine/Walk.antt =====
-- Histories of a status under a transition test: the changes that a guarded write lets through.
use luminarail_backend.Base.{
  ℕ, ◌+◌, ◌≤◌, ◌≡◌, Bool, true, false, arith, ◌===◌, Enum, ◌||◌, if◌then◌else◌,
}

or_false : (a b : Bool) → (a || b) ≡ false → b ≡ false
or_false a b h = ground arith

module _ {S : Type 0} (can : S → S → Bool) where
  -- A history of writes, each of which the test allows.
  pub data Walk : S → S → Type 0 where
    here : {s : S} → Walk s s
    step : {s t u : S} → can s t ≡ true → Walk t u → Walk s u

  -- What every allowed change keeps holds at the end of every history.
  pub Walk-keeps :
      (P : S → Type 0) → ((s t : S) → can s t ≡ true → P s → P t) → {s t : S} → Walk s t → P s → P t
  Walk-keeps P keep here h = h
  Walk-keeps P keep (step {s} {t} a p) h = Walk-keeps P keep p (keep s t a h)

module _ {S : Type 0} ⦃e : Enum S⦄ {can : S → S → Bool} where
  -- How often the status really changes.
  pub changes : {s t : S} → Walk can s t → ℕ
  changes here = 0
  changes (step {s} {t} a p) = (if s === t then 0 else 1) + changes p

  -- Whether the history begins at, or comes through, the status `x`.
  pub visits : S → {s t : S} → Walk can s t → Bool
  visits x (here {s}) = s === x
  visits x (step {s} a p) = s === x || visits x p

  pub changes-le :
      (rank : S → ℕ)
      → ((s t : S) → can s t ≡ true → rank s + (if s === t then 0 else 1) ≤ rank t)
      → {s t : S} → (p : Walk can s t) → rank s + changes p ≤ rank t
  unfolding changes
  changes-le rank up here = omega arith
  changes-le rank up (step {s} {t} a p) = omega (arith, up s t a, changes-le rank up p)

  visits-head : (x : S) {s t : S} (p : Walk can s t) → visits x p ≡ false → (s === x) ≡ false
  unfolding visits
  visits-head x here v = v
  visits-head x (step a p) v = ground arith

  -- Where a property is kept by every allowed change to another status than `x`, a history that
  -- begins with it either visits `x` or ends with it.
  pub visits-or-keeps :
      (x : S) (P : S → Type 0)
      → ((s t : S) → can s t ≡ true → (t === x) ≡ false → P s → P t)
      → {s t : S} → (p : Walk can s t) → P s
      → visits x p ≡ false
      → P t
  unfolding visits
  visits-or-keeps x P keep here h v = h
  visits-or-keeps x P keep (step {s} {t} a p) h v =
      let v' = or_false (s === x) (visits x p) v in
      visits-or-keeps x P keep p (keep s t a (visits-head x p v') h) v'
