-- ===== src/Base/Lists.antt =====
-- Rows of a table: lookup by a test, update of the first row that passes, counts.
use Prim.Native.Nat.{ℕ, zero, suc, ◌+◌}
use mathlib.Core.Path.{◌≡◌, refl, subst, ap, sym, ◌∙◌}
use mathlib.Core.Logic.{inl, inr}
use mathlib.Core.Bool.{Bool, true, false, ◌||◌}
use mathlib.Core.Option.{Option, none, some}
use mathlib.Core.List.{List, [], ◌∷◌, ◌++◌}
use native.Mathlib.Omega.{arith}
use luminarail_backend.Base.Tests.{if◌then◌else◌, ◌==◌, Bool-cases}

abbrev pub All {ℓ κ} : {A : Type ℓ} → (A → Type κ) → List A → Type κ
All P [] = Unit
All P (x ∷ xs) = P x × All P xs

module _ {ℓ} {A : Type ℓ} where
  abbrev pub length : List A → ℕ
  length [] = 0
  length (x ∷ xs) = suc (length xs)

  abbrev pub take : ℕ → List A → List A
  take zero xs = []
  take (suc n) [] = []
  take (suc n) (x ∷ xs) = x ∷ take n xs

  -- The first row that passes the test.
  abbrev pub find : (A → Bool) → List A → Option A
  find p [] = none
  find p (x ∷ xs) = if p x then some x else find p xs

  -- Replaces the first row that passes; the rest stays.
  abbrev pub update : (A → Bool) → (A → A) → List A → List A
  update p f [] = []
  update p f (x ∷ xs) = if p x then f x ∷ xs else x ∷ update p f xs

  -- Replaces every row that passes.
  abbrev pub update_all : (A → Bool) → (A → A) → List A → List A
  update_all p f [] = []
  update_all p f (x ∷ xs) = (if p x then f x else x) ∷ update_all p f xs

  -- Rows that pass, in order.
  abbrev pub select : (A → Bool) → List A → List A
  select p [] = []
  select p (x ∷ xs) = let rest = select p xs in if p x then x ∷ rest else rest

  abbrev pub any : (A → Bool) → List A → Bool
  any p [] = false
  any p (x ∷ xs) = p x || any p xs

pub found_here {ℓ} :
    {A : Type ℓ} (p : A → Bool) (y : A) (ys : List A) {x : A}
    → find p (y ∷ ys) ≡ some x
    → p y ≡ true
    → y ≡ x
found_here p y ys e hit = ground arith

pub length-append {ℓ} : {A : Type ℓ} (xs : List A) (x : A) → length (xs ++ x ∷ []) ≡ length xs + 1
length-append [] x = omega arith
length-append (y ∷ ys) x = omega (arith, length-append ys x)

module _ {ℓ κ} {A : Type ℓ} (P : A → Type κ) (p : A → Bool) where
  -- Only the row that is found changes, so a property of every row needs to hold of its new value.
  pub All-update :
      (f : A → A) (xs : List A) {x : A}
      → All P xs
      → find p xs ≡ some x
      → P (f x)
      → All P (update p f xs)
  All-update f [] h e k = tt
  All-update f (y ∷ ys) h e k = elim (Bool-cases (p y)) [
    | inl hit ↦ rw (hit, found_here p y ys e hit) (k, h.1)
    | inr miss ↦ rw miss (h.0, All-update f ys h.1 (rw miss at e) k)
  ]

  pub All-find : (xs : List A) {x : A} → All P xs → find p xs ≡ some x → P x
  All-find [] h e = cc
  All-find (y ∷ ys) h e = elim (Bool-cases (p y)) [
    | inl hit ↦ subst P (found_here p y ys e hit) h.0
    | inr miss ↦ All-find ys h.1 (rw miss at e)
  ]

module _ {ℓ} {A : Type ℓ} (p : A → Bool) where
  pub find-passes : (xs : List A) {x : A} → find p xs ≡ some x → p x ≡ true
  find-passes [] e = cc
  find-passes (y ∷ ys) e = elim (Bool-cases (p y)) [
    | inl hit ↦ subst (λ z. p z ≡ true) (found_here p y ys e hit) hit
    | inr miss ↦ find-passes ys (rw miss at e)
  ]

  pub find-append_last :
      (x : A) (xs : List A) → find p xs ≡ none → p x ≡ true → find p (xs ++ x ∷ []) ≡ some x
  find-append_last x [] e h = rw h refl
  find-append_last x (y ∷ ys) e h = ground (arith, find-append_last x ys)

  -- Where every row that passes is replaced by one that fails, none passes any longer.
  pub select-update_all :
      (f : A → A) (xs : List A)
      → ((x : A) → p x ≡ true → p (f x) ≡ false)
      → length (select p (update_all p f xs)) ≡ 0
  select-update_all f [] h = refl
  select-update_all f (y ∷ ys) h = elim (Bool-cases (p y)) [
    | inl hit ↦ rw hit (rw (h y hit) (select-update_all f ys h))
    | inr miss ↦ rw miss (rw miss (select-update_all f ys h))
  ]

  -- Where no row passes, replacing the rows that pass changes nothing.
  pub update_all-none :
      (f : A → A) (xs : List A) → length (select p xs) ≡ 0 → update_all p f xs ≡ xs
  update_all-none f [] h = refl
  update_all-none f (y ∷ ys) h = elim (Bool-cases (p y)) [
    | inl hit ↦ absurd (absurd_count ys (rw hit at h))
    | inr miss ↦ rw miss (ap (λ zs. y ∷ zs) (update_all-none f ys (rw miss at h)))
  ]
    where
      absurd_count : (zs : List A) → suc (length (select p zs)) ≡ 0 → ⊥
      absurd_count zs e = omega arith

  pub find-update_all :
      (q : A → Bool) (f : A → A) (xs : List A) (x : A)
      → find q xs ≡ some x
      → p x ≡ true
      → ((y : A) → q (f y) ≡ q y)
      → find q (update_all p f xs) ≡ some (f x)
  find-update_all q f [] x e h k = cc
  find-update_all q f (y ∷ ys) x e h k = elim (Bool-cases (q y)) [
    | inl hit ↦
        let same : y ≡ x = found_here q y ys e hit in
        rw (same, h) (rw (k x ∙ ap q (sym same) ∙ hit) refl)
    | inr miss ↦ elim (Bool-cases (p y)) [
      | inl yes_p ↦ rw yes_p (rw (k y ∙ miss) (find-update_all q f ys x (rw miss at e) h k))
      | inr no_p ↦ rw no_p (rw miss (find-update_all q f ys x (rw miss at e) h k))
    ]
  ]

  -- A row that another lookup finds is counted if it passes.
  pub select-find :
      (q : A → Bool) (xs : List A) (x : A)
      → find q xs ≡ some x
      → p x ≡ true
      → (length (select p xs) == 0) ≡ false
  select-find q [] x e h = cc
  select-find q (y ∷ ys) x e h = elim (Bool-cases (p y)) [
    | inl hit ↦ rw hit (ground arith)
    | inr miss ↦ elim (Bool-cases (q y)) [
      | inl here ↦ absurd (cc (found_here q y ys e here, miss, h))
      | inr later ↦ rw miss (select-find q ys x (rw later at e) h)
    ]
  ]

-- Two lookups that find one row find its new value after it is updated.
pub find-update_both {ℓ} :
    {A : Type ℓ} (p q : A → Bool) (f : A → A) (xs : List A) (x : A)
    → find p xs ≡ some x
    → find q xs ≡ some x
    → q (f x) ≡ q x
    → find q (update p f xs) ≡ some (f x)
find-update_both p q f [] x e g k = cc
find-update_both p q f (y ∷ ys) x e g k = elim (Bool-cases (p y)) [
  | inl hit ↦
      let same : y ≡ x = found_here p y ys e hit in
      rw hit (rw same (rw (k ∙ find-passes q (y ∷ ys) g) refl))
  | inr miss ↦ elim (Bool-cases (q y)) [
    | inl other ↦
        let same : y ≡ x = found_here q y ys g other in
        absurd (clash (p x) (find-passes p (y ∷ ys) e) (subst (λ z. p z ≡ false) same miss))
    | inr neither ↦
        rw miss (rw neither (find-update_both p q f ys x (rw miss at e) (rw neither at g) k))
  ]
]
  where
    clash : (b : Bool) → b ≡ true → b ≡ false → ⊥
    clash b h k = cc
