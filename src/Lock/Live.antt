-- ===== src/Lock/Live.antt =====
-- Lookups in the cleaned map, and the values that have not expired.
use luminarail_backend.Base.{
  ℕ, ◌≡◌, refl, ap, sym, ◌∙◌, true, false, ◌&&◌, Option, none, some, [], ◌∷◌, ◌==◌, if◌then◌else◌,
  Bool-cases, ==-refl, ==-eq, inl, inr, arith,
}
use luminarail_backend.Lock.Redis.{Item, Items, lookup, remove, put, has_expired, clean_expired}

-- The value of the entry, unless it has expired.
abbrev pub live : ℕ → Option Item → Option ℕ
live now none = none
live now (some i) = if has_expired now (some i) then none else some i.value

-- Who owns the key at the time `now`.
abbrev pub owner : ℕ → Items → ℕ → Option ℕ
owner now items k = live now (lookup k items)

pub lookup-remove :
    (j k : ℕ) (items : Items)
    → lookup j (remove k items) ≡ (if j == k then none else lookup j items)
lookup-remove j k [] = ground arith
lookup-remove j k (i ∷ items) = ground (arith, lookup-remove j k items)

pub lookup-put :
    (j : ℕ) (i : Item) (items : Items)
    → lookup j (put i items) ≡ (if j == i.key then some i else lookup j items)
lookup-put j i items = ground (arith, lookup-remove j i.key items)

pub clean-lookup :
    (now k j : ℕ) (items : Items)
    → lookup j (clean_expired now k items)
      ≡ (if j == k && has_expired now (lookup k items) then none else lookup j items)
unfolding clean_expired
clean-lookup now k j items = elim (Bool-cases (has_expired now (lookup k items))) [
  | inl over ↦ elim (Bool-cases (j == k)) [
    | inl this ↦ rw over (lookup-remove j k items ∙ rw this refl)
    | inr other ↦ rw over (lookup-remove j k items ∙ rw other refl)
  ]
  | inr lives ↦ elim (Bool-cases (j == k)) [
    | inl this ↦ rw lives (rw this refl)
    | inr other ↦ rw lives (rw other refl)
  ]
]

-- The value of an entry, expired or not.
abbrev pub value_of : Option Item → Option ℕ
value_of none = none
value_of (some i) = some i.value

live-expired : (now : ℕ) (o : Option Item) → has_expired now o ≡ true → live now o ≡ none
live-expired now none h = cc
live-expired now (some i) h = rw h refl

live-fresh : (now : ℕ) (o : Option Item) → has_expired now o ≡ false → live now o ≡ value_of o
live-fresh now none h = refl
live-fresh now (some i) h = rw h refl

-- What is found of the key once it has been cleaned is its owner.
pub clean-value :
    (now k : ℕ) (items : Items)
    → value_of (lookup k (clean_expired now k items)) ≡ owner now items k
clean-value now k items = elim (Bool-cases (has_expired now (lookup k items))) [
  | inl over ↦
      rw (clean-lookup now k k items)
        (rw (over, ==-refl k) (sym (live-expired now (lookup k items) over)))
  | inr lives ↦
      rw (clean-lookup now k k items)
        (rw (lives, ==-refl k) (sym (live-fresh now (lookup k items) lives)))
]

pub clean-owner :
    (now k j : ℕ) (items : Items) → owner now (clean_expired now k items) j ≡ owner now items j
clean-owner now k j items = elim (Bool-cases (has_expired now (lookup k items))) [
  | inl over ↦ elim (Bool-cases (j == k)) [
    | inl this ↦
        let same = ==-eq j k this in
        rw (clean-lookup now k j items) (
          rw (over, this)
            (sym (ap (λ i. owner now items i) same ∙ live-expired now (lookup k items) over)))
    | inr other ↦ rw (clean-lookup now k j items) (rw other refl)
  ]
  | inr lives ↦ elim (Bool-cases (j == k)) [
    | inl this ↦ rw (clean-lookup now k j items) (rw (lives, this) refl)
    | inr other ↦ rw (clean-lookup now k j items) (rw other refl)
  ]
]
