-- ===== src/Stellar/Encode.antt =====
-- `parseSettlementIdToU64` and `parseAmountToStroops` of src/stellar/soroban/transaction.service.ts.
use Prim.Native.Nat.{bit_xor, ◌^◌}
use luminarail_backend.Base.{
  ℕ, zero, suc, ◌+◌, ◌-◌, ◌*◌, ◌%◌, Bool, ◌&&◌, Option, none, some, [], ◌∷◌, ◌++◌, length, take,
  select, leb, ◌==◌, if◌then◌else◌,
}
use luminarail_backend.Store.Status.{Text}

-- `\d`
abbrev pub is_digit : ℕ → Bool
is_digit c = leb b'0' c && leb c b'9'

-- `BigInt` of a text of decimal digits; any other text throws.
unfoldable pub read_digits : ℕ → Text → Option ℕ
read_digits n [] = some n
read_digits n (c ∷ s) =
    let rest = read_digits (n * 10 + (c - b'0')) s in if is_digit c then rest else none

-- The value of a text that holds digits only.
unfoldable pub digits_value : ℕ → Text → ℕ
digits_value n [] = n
digits_value n (c ∷ s) = digits_value (n * 10 + (c - b'0')) s

abbrev pub u64_mod : ℕ
u64_mod = 2 ^ 64

-- The loop of the FNV-1a hash; `& 0xffffffffffffffff` keeps 64 bits.
unfoldable pub hash_from : ℕ → Text → ℕ
hash_from hash [] = hash
hash_from hash (c ∷ s) = hash_from ((bit_xor hash c * 1099511628211) % u64_mod) s

unfoldable pub parse_settlement_id : Text → ℕ
unfolding digits_value hash_from
parse_settlement_id settlement_id =
    let numeric_part = select is_digit settlement_id in
    if leb 8 (length numeric_part)
    then digits_value 0 (take 18 numeric_part)
    else hash_from 14695981039346656037 settlement_id

-- `s.split('.')`: what stands before the first point, and between it and the next, if there is one.
unfoldable pub before_point : Text → Text
before_point [] = []
before_point (c ∷ s) = if c == b'.' then [] else c ∷ before_point s

unfoldable pub after_point : Text → Text
unfolding before_point
after_point [] = []
after_point (c ∷ s) = if c == b'.' then before_point s else after_point s

-- `decimalPart.substring(0, n)` if it is longer, `decimalPart.padEnd(n, '0')` if it is not.
unfoldable pub fit : ℕ → Text → Text
fit zero s = []
fit (suc n) [] = b'0' ∷ fit n []
fit (suc n) (c ∷ s) = c ∷ fit n s

-- `parts[0] || '0'`
abbrev pub or_zero : Text → Text
or_zero [] = b'0' ∷ []
or_zero (c ∷ s) = c ∷ s

unfoldable pub parse_amount : Text → Option ℕ
unfolding read_digits before_point after_point fit
parse_amount amount = read_digits 0 (or_zero (before_point amount) ++ fit 7 (after_point amount))
