-- ===== src/Stellar/Digits.antt =====
-- What the two encodings of src/stellar/soroban/transaction.service.ts compute.
use Prim.Native.Nat.{bit_xor, ◌^◌}
use luminarail_backend.Base.{
  ℕ, zero, suc, ◌+◌, ◌-◌, ◌*◌, ◌%◌, ◌≤◌, ◌<◌, ◌≡◌, refl, sym, ap, ◌∙◌, Bool, true, some, [], ◌∷◌,
  ◌++◌, length, take, select, All, leb, Bool-cases, inl, inr, arith,
}
use mathlib.Core.List.{append-nil}
use luminarail_backend.Store.Status.{Text}
use luminarail_backend.Stellar.Encode.{
  is_digit, read_digits, digits_value, u64_mod, hash_from, parse_settlement_id, before_point,
  after_point, fit, parse_amount,
}

-- The text is made of digits.
abbrev pub Digits : Text → Type 0
Digits = All (λ c. is_digit c ≡ true)

abbrev pub pow10 : ℕ → ℕ
pow10 zero = 1
pow10 (suc k) = 10 * pow10 k

-- The largest number that `k` more digits lead to.
nines : ℕ → ℕ → ℕ
nines n zero = n
nines n (suc k) = nines (n * 10 + 9) k

nines_mono : (m n k : ℕ) → m ≤ n → nines m k ≤ nines n k
unfolding nines
nines_mono m n zero h = h
nines_mono m n (suc k) h = nines_mono (m * 10 + 9) (n * 10 + 9) k (omega arith)

digits_value-le : (n : ℕ) (s : Text) → Digits s → digits_value n s ≤ nines n (length s)
unfolding digits_value nines
digits_value-le n [] h = omega arith
digits_value-le n (c ∷ s) h = ground (
  arith,
  digits_value-le (n * 10 + (c - b'0')) s h.1,
  nines_mono (n * 10 + (c - b'0')) (n * 10 + 9) (length s),
)

le-nines : (n k : ℕ) → n ≤ nines n k
unfolding nines
le-nines n zero = omega arith
le-nines n (suc k) = omega (arith, le-nines (n * 10 + 9) k)

nines-take : (n j : ℕ) (s : Text) → nines n (length (take j s)) ≤ nines n j
unfolding nines
nines-take n zero s = omega arith
nines-take n (suc j) [] = le-nines n (suc j)
nines-take n (suc j) (c ∷ s) = nines-take (n * 10 + 9) j s

Digits-select : (s : Text) → Digits (select is_digit s)
Digits-select [] = tt
Digits-select (c ∷ s) = elim (Bool-cases (is_digit c)) [
  | inl yes_digit ↦ rw yes_digit (yes_digit, Digits-select s)
  | inr other ↦ rw other (Digits-select s)
]

Digits-take : (k : ℕ) (s : Text) → Digits s → Digits (take k s)
Digits-take zero s h = tt
Digits-take (suc k) [] h = tt
Digits-take (suc k) (c ∷ s) h = (h.0, Digits-take k s h.1)

hash_from-lt : (hash : ℕ) (s : Text) → hash < u64_mod → hash_from hash s < u64_mod
unfolding hash_from
hash_from-lt hash [] h = h
hash_from-lt hash (c ∷ s) h =
    hash_from-lt ((bit_xor hash c * 1099511628211) % u64_mod) s (omega arith)

numeric-lt : (s : Text) → digits_value 0 (take 18 (select is_digit s)) < u64_mod
unfolding nines
numeric-lt s =
    let low = select is_digit s in
    omega (
      arith,
      digits_value-le 0 (take 18 low) (Digits-take 18 low (Digits-select s)),
      nines-take 0 18 low,
    )

-- The number that a settlement's id becomes on the chain always fits 64 bits, whatever the text of
-- the id is.
pub settlement_id_fits : (settlement_id : Text) → parse_settlement_id settlement_id < 2 ^ 64
unfolding parse_settlement_id
settlement_id_fits s = elim (Bool-cases (leb 8 (length (select is_digit s)))) [
  | inl long ↦ rw long (numeric-lt s)
  | inr short ↦ rw short (hash_from-lt 14695981039346656037 s (omega arith))
]

select-append : (p : ℕ → Bool) (s t : Text) → select p (s ++ t) ≡ select p s ++ select p t
select-append p [] t = refl
select-append p (c ∷ s) t = ground (arith, select-append p s t)

-- Two ids that begin alike and go on with texts without digits become the same number, if the common
-- beginning has eight digits or more.
pub settlement_ids_collide :
    (start s t : Text)
    → 8 ≤ length (select is_digit start)
    → select is_digit s ≡ []
    → select is_digit t ≡ []
    → parse_settlement_id (start ++ s) ≡ parse_settlement_id (start ++ t)
unfolding parse_settlement_id
settlement_ids_collide start s t long first second =
    let left = select-append is_digit start s in
    let right = select-append is_digit start t in
    let same : select is_digit (start ++ s) ≡ select is_digit (start ++ t) =
      rw (left, right, first, second) refl in
    let enough : leb 8 (length (select is_digit (start ++ t))) ≡ true =
      rw (right, second) (rw (append-nil (select is_digit start)) (ground arith)) in
    rw same (rw enough refl)

read_digits_lem : (n : ℕ) (s : Text) → Digits s → read_digits n s ≡ some (digits_value n s)
unfolding read_digits digits_value
read_digits_lem n [] h = refl
read_digits_lem n (c ∷ s) h = rw h.0 (read_digits_lem (n * 10 + (c - b'0')) s h.1)

before_point_lem : (s t : Text) → Digits s → before_point (s ++ b'.' ∷ t) ≡ s
unfolding before_point
before_point_lem [] t h = refl
before_point_lem (c ∷ s) t h = ground (arith, before_point_lem s t h.1)

before_point-whole : (s : Text) → Digits s → before_point s ≡ s
unfolding before_point
before_point-whole [] h = refl
before_point-whole (c ∷ s) h = ground (arith, before_point-whole s h.1)

after_point_lem : (s t : Text) → Digits s → Digits t → after_point (s ++ b'.' ∷ t) ≡ t
unfolding after_point
after_point_lem [] t h k = before_point-whole t k
after_point_lem (c ∷ s) t h k = ground (arith, after_point_lem s t h.1 k)

Digits-append : (s t : Text) → Digits s → Digits t → Digits (s ++ t)
Digits-append [] t h k = k
Digits-append (c ∷ s) t h k = (h.0, Digits-append s t h.1 k)

Digits-fit : (k : ℕ) (s : Text) → Digits s → Digits (fit k s)
unfolding fit
Digits-fit zero s h = tt
Digits-fit (suc k) [] h = (refl, Digits-fit k [] tt)
Digits-fit (suc k) (c ∷ s) h = (h.0, Digits-fit k s h.1)

digits_value-append :
    (n : ℕ) (s t : Text) → digits_value n (s ++ t) ≡ digits_value (digits_value n s) t
unfolding digits_value
digits_value-append n [] t = refl
digits_value-append n (c ∷ s) t = digits_value-append (n * 10 + (c - b'0')) s t

take-nil : (k : ℕ) → take {A = ℕ} k [] ≡ []
take-nil zero = refl
take-nil (suc k) = refl

digits_value-fit :
    (k n : ℕ) (s : Text)
    → digits_value n (fit k s) ≡ digits_value n (take k s) * pow10 (k - length s)
unfolding digits_value fit
digits_value-fit zero n s = let nothing : 0 - length s ≡ 0 = omega arith in rw nothing (omega arith)
digits_value-fit (suc k) n [] =
    let none_less : k - 0 ≡ k = omega arith in
    let one_less : suc k - 0 ≡ suc k = omega arith in
    rw (digits_value-fit k (n * 10 + 0) [], take-nil k) (rw (none_less, one_less) (grind arith))
digits_value-fit (suc k) n (c ∷ s) =
    let both : suc k - suc (length s) ≡ k - length s = omega arith in
    rw both (digits_value-fit k (n * 10 + (c - b'0')) s)

after_point-whole : (s : Text) → Digits s → after_point s ≡ []
unfolding after_point
after_point-whole [] h = refl
after_point-whole (c ∷ s) h = ground (arith, after_point-whole s h.1)

module _ (c : ℕ) (whole tail amount : Text) (h : Digits (c ∷ whole)) (k : Digits tail)
    (before : before_point amount ≡ c ∷ whole) (after : after_point amount ≡ tail) where
  parsed : parse_amount amount ≡ some (digits_value 0 ((c ∷ whole) ++ fit 7 tail))
  unfolding parse_amount
  parsed =
      rw (before, after)
        (read_digits_lem 0 ((c ∷ whole) ++ fit 7 tail)
          (Digits-append (c ∷ whole) (fit 7 tail) h (Digits-fit 7 tail k)))

  padded :
      parse_amount amount
      ≡ some (digits_value 0 ((c ∷ whole) ++ take 7 tail) * pow10 (7 - length tail))
  padded =
      parsed
      ∙ ap some (
          digits_value-append 0 (c ∷ whole) (fit 7 tail)
          ∙ digits_value-fit 7 (digits_value 0 (c ∷ whole)) tail
          ∙ ap (λ n. n * pow10 (7 - length tail))
              (sym (digits_value-append 0 (c ∷ whole) (take 7 tail))))

-- An amount that is written as digits, a point and decimals becomes the number whose digits are these
-- without the point, with zeros up to seven decimals; the decimals from the eighth on are cut off.
-- An amount without a point becomes ten million times its number.
pub amount_in_stroops :
    (c : ℕ) (whole decimals : Text)
    → Digits (c ∷ whole)
    → Digits decimals
    → (parse_amount ((c ∷ whole) ++ b'.' ∷ decimals)
        ≡ some (digits_value 0 ((c ∷ whole) ++ take 7 decimals) * pow10 (7 - length decimals)))
      × (parse_amount (c ∷ whole) ≡ some (digits_value 0 (c ∷ whole) * 10000000))
amount_in_stroops c whole decimals h k =
    let amount = (c ∷ whole) ++ b'.' ∷ decimals in
    let before = before_point_lem (c ∷ whole) decimals h in
    let after = after_point_lem (c ∷ whole) decimals h k in
    (
      padded c whole decimals amount h k before after,
      padded c whole [] (c ∷ whole) h tt (before_point-whole (c ∷ whole) h)
            (after_point-whole (c ∷ whole) h)
          ∙ ap (λ t. some (digits_value 0 t * 10000000)) (append-nil (c ∷ whole)),
    )
