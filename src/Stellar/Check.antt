-- ===== src/Stellar/Check.antt =====
-- The outcome of a run of checks: the first that fails decides.
use luminarail_backend.Base.{Bool, true, false, Option, none, some, ◌≡◌, refl, ⊤}
use luminarail_backend.Store.Action.{Violation}

-- `broken` is an exception of the Stellar SDK, which is not logged as a rejection.
pub data Check (A : Type 0) : Type 0 where
  passed : A → Check A
  rejected : Violation → Check A
  broken : Check A

infixl 5 ◌>>=◌ ◌>>◌
abbrev pub ◌>>=◌ : {A B : Type 0} → Check A → (A → Check B) → Check B
passed a >>= f = f a
rejected v >>= f = rejected v
broken >>= f = broken

abbrev pub ◌>>◌ : {A B : Type 0} → Check A → Check B → Check B
m >> k = m >>= λ _. k

abbrev pub reject_if : Bool → Violation → Check ⊤
reject_if true v = rejected v
reject_if false v = passed tt

abbrev pub or_reject : {A : Type 0} → Option A → Violation → Check A
or_reject none v = rejected v
or_reject (some a) v = passed a

abbrev pub or_break : {A : Type 0} → Option A → Check A
or_break none = broken
or_break (some a) = passed a

-- What a run that passes has passed.
pub >>=-passed :
    {A B : Type 0} (m : Check A) (f : A → Check B) {b : B}
    → (m >>= f) ≡ passed b
    → (a : A) × (m ≡ passed a) × (f a ≡ passed b)
>>=-passed (passed a) f h = (a, refl, h)
>>=-passed (rejected v) f h = cc
>>=-passed broken f h = cc

pub reject_if-passed :
    {B : Type 0} (c : Bool) (v : Violation) (k : Check B) {b : B}
    → (reject_if c v >> k) ≡ passed b
    → (c ≡ false) × (k ≡ passed b)
reject_if-passed true v k h = cc
reject_if-passed false v k h = (refl, h)

pub or_reject-passed :
    {A B : Type 0} (o : Option A) (v : Violation) (f : A → Check B) {b : B}
    → (or_reject o v >>= f) ≡ passed b
    → (a : A) × (o ≡ some a) × (f a ≡ passed b)
or_reject-passed none v f h = cc
or_reject-passed (some a) v f h = (a, refl, h)

pub or_break-passed :
    {A B : Type 0} (o : Option A) (f : A → Check B) {b : B}
    → (or_break o >>= f) ≡ passed b
    → (a : A) × (o ≡ some a) × (f a ≡ passed b)
or_break-passed none f h = cc
or_break-passed (some a) f h = (a, refl, h)
