-- ===== src/Int.antt =====
-- Signed integers: a `Decimal` column or variable as a whole number of its smallest unit.
use luminarail_backend.Base.{
  Option, none, some, ℕ, suc, ◌+◌, ◌-◌, ◌*◌, ◌≤◌, ◌≡◌, Bool, arith, ltb, leb, if◌then◌else◌,
}

-- `negsuc n` is -(n + 1)
pub data ℤ : Type 0 where
  pos negsuc : ℕ → ℤ

-- What a number holds above zero, and what it owes below it.
abbrev pub surplus : ℤ → ℕ
surplus (pos n) = n
surplus (negsuc _) = 0

abbrev pub debt : ℤ → ℕ
debt (pos _) = 0
debt (negsuc n) = suc n

-- The difference of two naturals.
abbrev pub diff : ℕ → ℕ → ℤ
diff a b = if ltb a b then negsuc (b - a - 1) else pos (a - b)

infixl 65 ◌+ℤ◌ ◌-ℤ◌
infix 50 ◌≤ℤ◌ ◌<ℤ◌
unfoldable pub ◌+ℤ◌ : ℤ → ℤ → ℤ
x +ℤ y = diff (surplus x + surplus y) (debt x + debt y)

unfoldable pub ◌-ℤ◌ : ℤ → ℤ → ℤ
x -ℤ y = diff (surplus x + debt y) (debt x + surplus y)

abbrev pub ◌≤ℤ◌ : ℤ → ℤ → Type 0
x ≤ℤ y = surplus x + debt y ≤ surplus y + debt x

abbrev pub ◌<ℤ◌ : ℤ → ℤ → Type 0
x <ℤ y = suc (surplus x + debt y) ≤ surplus y + debt x

-- `lt` and `lte` of a Decimal; `gt` and `gte` are these with the operands exchanged.
abbrev pub lt : ℤ → ℤ → Bool
lt x y = ltb (surplus x + debt y) (surplus y + debt x)

abbrev pub lte : ℤ → ℤ → Bool
lte x y = leb (surplus x + debt y) (surplus y + debt x)

-- `a.lt(0) ? 0 : a`
abbrev pub clamp : ℤ → ℤ
clamp x = if lt x (pos 0) then pos 0 else x

-- With these the operations stay shut in the proofs of the other modules.
pub +ℤ_lem :
    (x y : ℤ) → surplus (x +ℤ y) + (debt x + debt y) ≡ debt (x +ℤ y) + (surplus x + surplus y)
unfolding ◌+ℤ◌
+ℤ_lem x y = ground arith

pub -ℤ_lem :
    (x y : ℤ) → surplus (x -ℤ y) + (debt x + surplus y) ≡ debt (x -ℤ y) + (surplus x + debt y)
unfolding ◌-ℤ◌
-ℤ_lem x y = ground arith

pub ≤ℤ_antisymm : (x y : ℤ) → surplus x + debt y ≡ surplus y + debt x → x ≡ y
≤ℤ_antisymm x y h = ground arith

pub ruleset integers = (arith, +ℤ_lem, -ℤ_lem, ≤ℤ_antisymm)

-- `new Prisma.Decimal(x)` of a request: a number of smallest units, or NaN or an infinity.
pub data Decimal : Type 0 where
  finite : ℤ → Decimal
  not_finite : Decimal

-- `x.lte(0) || !x.isFinite()` fails: the value that the code goes on with.
abbrev pub positive : Decimal → Option ℤ
positive (finite x) = if lte x (pos 0) then none else some x
positive not_finite = none

pub positive-le : (d : Decimal) {x : ℤ} → positive d ≡ some x → pos 1 ≤ℤ x
positive-le (finite y) e = ground arith
positive-le not_finite e = cc
