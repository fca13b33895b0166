-- ===== src/Base/Keyed.antt =====
-- Tables whose rows carry a key: lookup by key after an update, an append, or another lookup.
use Prim.Native.Nat.{ℕ, ◌<◌}
use mathlib.Core.Path.{◌≡◌, refl, sym, ap, ◌∙◌, subst}
use mathlib.Core.Logic.{◌≢◌, inl, inr}
use mathlib.Core.Bool.{Bool, true, false}
use mathlib.Core.Option.{Option, none, some}
use mathlib.Core.List.{List, [], ◌∷◌, ◌++◌}
use native.Mathlib.Omega.{arith}
use luminarail_backend.Base.Tests.{if◌then◌else◌, ◌==◌, Bool-cases}
use luminarail_backend.Base.Lists.{All, find, update, found_here}

-- A property of the row that a lookup finds, if it finds one.
abbrev pub OnFound {ℓ κ} : {A : Type ℓ} → (A → Type κ) → Option A → Type κ
OnFound P none = Unit
OnFound P (some x) = P x

some_inj {ℓ} : {A : Type ℓ} {x y : A} → some x ≡ some y → x ≡ y
some_inj e = cc

pub OnFound-some {ℓ κ} :
    {A : Type ℓ} (P : A → Type κ) {o : Option A} {x : A} → OnFound P o → o ≡ some x → P x
OnFound-some P {o = none} h e = cc
OnFound-some P {o = some y} h e = subst P (some_inj e) h

pub OnFound-map {ℓ κ} :
    {A : Type ℓ} (P Q : A → Type κ) (o : Option A)
    → ((x : A) → o ≡ some x → P x → Q x)
    → OnFound P o
    → OnFound Q o
OnFound-map P Q none k h = tt
OnFound-map P Q (some x) k h = k x refl h

pub OnFound-here {ℓ κ} :
    {A : Type ℓ} {P : A → Type κ} (o : Option A) → ((x : A) → o ≡ some x → P x) → OnFound P o
OnFound-here none k = tt
OnFound-here (some x) k = k x refl

pub ==-eq : (a b : ℕ) → (a == b) ≡ true → a ≡ b
==-eq a b h = ground arith

pub ==-refl : (a : ℕ) → (a == a) ≡ true
==-refl a = ground arith

pub ==-ne : (a b : ℕ) → a ≢ b → (a == b) ≡ false
==-ne a b n = ground arith

module _ {ℓ} {A : Type ℓ} (key : A → ℕ) where
  -- No two rows have one key.
  abbrev pub Distinct : List A → Type ℓ
  Distinct [] = Unit
  Distinct (x ∷ xs) = (find (λ y. key y == key x) xs ≡ none) × Distinct xs

  pub find-update_same :
      (k : ℕ) (f : A → A) (xs : List A) (x : A)
      → find (λ y. key y == k) xs ≡ some x
      → key (f x) ≡ key x
      → find (λ y. key y == k) (update (λ y. key y == k) f xs) ≡ some (f x)
  find-update_same k f [] x e h = cc
  find-update_same k f (y ∷ ys) x e h = elim (Bool-cases (key y == k)) [
    | inl hit ↦
        let same : y ≡ x = found_here (λ z. key z == k) y ys e hit in
        rw hit (rw same (rw (h ∙ ap key (sym same)) (rw hit refl)))
    | inr miss ↦ rw miss (rw miss (find-update_same k f ys x (rw miss at e) h))
  ]

  pub find-update_other :
      (j k : ℕ) (f : A → A) (xs : List A)
      → j ≢ k
      → ((x : A) → key (f x) ≡ key x)
      → find (λ y. key y == j) (update (λ y. key y == k) f xs) ≡ find (λ y. key y == j) xs
  find-update_other j k f [] n h = refl
  find-update_other j k f (y ∷ ys) n h = ground (arith, h y, find-update_other j k f ys n h)

  pub find-append_fresh :
      (j k : ℕ) (x : A) (xs : List A)
      → key x ≡ k
      → All (λ y. key y < k) xs
      → find (λ y. key y == j) (xs ++ x ∷ [])
        ≡ (if k == j then some x else find (λ y. key y == j) xs)
  find-append_fresh j k x [] e h = ground arith
  find-append_fresh j k x (y ∷ ys) e h = ground (arith, find-append_fresh j k x ys e h.1)

  pub find-fresh :
      (k : ℕ) (xs : List A) → All (λ y. key y < k) xs → find (λ y. key y == k) xs ≡ none
  find-fresh k [] h = refl
  find-fresh k (y ∷ ys) h = ground (arith, find-fresh k ys h.1)

  -- The row that another test finds is the row that its own key finds.
  pub find-key :
      (p : A → Bool) (xs : List A) {x : A}
      → Distinct xs
      → find p xs ≡ some x
      → find (λ y. key y == key x) xs ≡ some x
  find-key p [] d e = cc
  find-key p (y ∷ ys) {x} d e = elim (Bool-cases (p y)) [
    | inl hit ↦ rw (found_here p y ys e hit) (rw (==-refl (key x)) refl)
    | inr miss ↦
        let ih : find (λ z. key z == key x) ys ≡ some x = find-key p ys d.1 (rw miss at e) in
        rw (==-ne (key y) (key x) (λ same. cc (ih, rw same at d.0))) ih
  ]

  find-update_absent :
      (k : ℕ) (p : A → Bool) (f : A → A) (xs : List A)
      → ((x : A) → key (f x) ≡ key x)
      → find (λ y. key y == k) xs ≡ none
      → find (λ y. key y == k) (update p f xs) ≡ none
  find-update_absent k p f [] h e = refl
  find-update_absent k p f (y ∷ ys) h e = ground (arith, h y, find-update_absent k p f ys h)

  pub Distinct-update :
      (p : A → Bool) (f : A → A) (xs : List A)
      → ((x : A) → key (f x) ≡ key x)
      → Distinct xs
      → Distinct (update p f xs)
  Distinct-update p f [] h d = tt
  Distinct-update p f (y ∷ ys) h d = elim (Bool-cases (p y)) [
    | inl hit ↦ rw hit (rw (h y) d.0, d.1)
    | inr miss ↦ rw miss (find-update_absent (key y) p f ys h d.0, Distinct-update p f ys h d.1)
  ]

  pub Distinct-append :
      (x : A) (xs : List A) → All (λ y. key y < key x) xs → Distinct xs → Distinct (xs ++ x ∷ [])
  Distinct-append x [] h d = (refl, tt)
  Distinct-append x (y ∷ ys) h d = (
    rw (find-append_fresh (key y) (key x) x ys refl h.1) (ground arith),
    Distinct-append x ys h.1 d.1,
  )

  -- A row that another test finds is still found by it after an update by its key that keeps the test.
  pub find-update_key :
      (p : A → Bool) (f : A → A) (xs : List A) (x : A)
      → Distinct xs
      → find p xs ≡ some x
      → p (f x) ≡ true
      → find p (update (λ y. key y == key x) f xs) ≡ some (f x)
  find-update_key p f [] x d e h = cc
  find-update_key p f (y ∷ ys) x d e h = elim (Bool-cases (p y)) [
    | inl hit ↦ let same : y ≡ x = found_here p y ys e hit in rw (same, ==-refl (key x)) (rw h refl)
    | inr miss ↦
        let later : find p ys ≡ some x = rw miss at e in
        let ih : find (λ z. key z == key x) ys ≡ some x = find-key p ys d.1 later in
        rw (==-ne (key y) (key x) (λ same. cc (ih, rw same at d.0)))
          (rw miss (find-update_key p f ys x d.1 later h))
  ]
