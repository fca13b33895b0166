-- ===== src/Store/Action.antt =====
-- What a service method does: it reads and writes the world, and returns a value or throws. What
-- was written before a throw stays, unless a database transaction rolls it back.
use luminarail_backend.Base.{
  ℕ, suc, ⊤, Bool, Option, none, some, [], ◌∷◌, ◌++◌, true, false, ◌≡◌, refl, ap, ◌⊎◌, inl, inr,
}
use luminarail_backend.Store.Rows.{World, Actor, AuditAction}

-- What the settlement policy rejects a transaction for.
pub data Violation : Type 0 where
  emergency_pause malformed_xdr passphrase_mismatch operation_count operation_type : Violation
  host_function unapproved_contract unapproved_function argument_count : Violation
  settlement_id_mismatch source_mismatch asset_mismatch order_missing order_status : Violation
  active_refund_present wallet_invalid destination_mismatch amount_mismatch : Violation
  no_succeeded_payment reservation_status settlement_missing settlement_completed : Violation
  settlement_stale below_minimum above_single above_hourly above_daily : Violation

-- The exceptions, by class and message; an id that a message carries is left out.
pub data Error : Type 0 where
  -- BadRequestError
  reservation_amount_not_positive insufficient_liquidity treasury_amount_not_positive : Error
  insufficient_total_balance negative_available_balance : Error
  quote_used quote_cancelled quote_expired invalid_order_transition : Error
  order_already_settled settlement_active no_eligible_payment fully_refunded : Error
  refund_amount_not_positive refund_exceeds_remaining : Error
  -- NotFoundError and its kin
  pool_not_found quote_not_found payment_not_found order_not_found settlement_not_found
        refund_not_found :
      Error
  -- ForbiddenError
  order_forbidden payment_forbidden settlement_forbidden refund_forbidden refund_state_forbidden :
      Error
  -- ConflictError
  idempotency_conflict : Error
  -- InvalidSettlementStateError, InvalidOrderStateForSettlementError, InvalidRefundStateError
  invalid_payment_transition concurrent_payment_modification : Error
  invalid_settlement_transition concurrent_settlement_modification : Error
  order_not_settlement_pending active_refund no_wallet invalid_refund_transition : Error
  -- thrown by the database client: a missing row, a broken unique constraint
  record_missing unique_violation : Error
  -- a lost or unavailable distributed lock, and what an external call throws
  lock_lost lock_unavailable provider_failed : Error
  -- SorobanSubmissionError of the policy engine, and what the Stellar SDK throws
  policy_violation : Violation → Error
  sdk_failed : Error
  -- thrown by `new Decimal(text)`
  malformed_decimal : Error
  -- WebhookVerificationError
  webhook_signature_invalid : Error
  -- createQuote and the quote providers
  quote_amount_not_positive unsupported_pair below_minimum_ngn above_maximum_ngn : Error
  output_above_maximum fx_unavailable fx_stale_rate fx_unreasonable_rate invalid_rate : Error

pub data Result (A : Type 0) : Type 0 where
  ok : A → Result A
  err : Error → Result A

abbrev pub Action : Type 0 → Type 0
Action A = World → Result A × World

module _ {A : Type 0} where
  abbrev pub pure : A → Action A
  pure a w = (ok a, w)

  abbrev pub raise : Error → Action A
  raise e w = (err e, w)

  abbrev pub gets : (World → A) → Action A
  gets f w = (ok (f w), w)

  abbrev pub or_raise : Option A → Error → Action A
  or_raise none e = raise e
  or_raise (some a) e = pure a

infixl 5 ◌>>=◌ ◌>>◌
abbrev pub ◌>>=◌ : {A B : Type 0} → Action A → (A → Action B) → Action B
◌>>=◌ m f w = let (r, w') = m w in elim r [ ok a ↦ f a w' | err e ↦ (err e, w') ]

abbrev pub ◌>>◌ : {A B : Type 0} → Action A → Action B → Action B
m >> k = m >>= λ _. k

abbrev pub raise_if : Bool → Error → Action ⊤
raise_if true e w = (err e, w)
raise_if false e w = (ok tt, w)

-- The first exception that a run of checks throws, if any does.
abbrev pub throw_any : Option Error → Action ⊤
throw_any none = pure tt
throw_any (some e) = raise e

abbrev pub lift : {A : Type 0} → Result A → Action A
lift r w = (r, w)

-- `if (c) { await m }`
abbrev pub when : Bool → Action ⊤ → Action ⊤
when true m w = m w
when false m w = (ok tt, w)

abbrev pub modify : (World → World) → Action ⊤
modify f w = (ok tt, f w)

-- A fresh id: `uuid()`, or an id made of the time and random digits.
abbrev pub fresh : Action ℕ
fresh w = (ok w.next_id, record w { next_id = suc w.next_id })

-- How a transaction that began at `before` ends: a throw restores the tables alone.
abbrev pub settle : {A : Type 0} → World → Result A × World → Result A × World
settle before (ok a, after) = (ok a, after)
settle before (err e, after) = (err e, record after { tables = before.tables })

-- `prisma.$transaction(async (tx) => …)`
abbrev pub transaction : {A : Type 0} → Action A → Action A
transaction m w = settle w (m w)

-- `try { m } catch { h }`
abbrev pub recover : {A : Type 0} → Action A → Action A → Action A
recover m h w = let (r, w') = m w in elim r [ ok a ↦ (ok a, w') | err e ↦ h w' ]

-- `AuditService.log`, whose own failures are swallowed.
unfoldable pub audit_log : Actor → AuditAction → Option ℕ → Action ⊤
audit_log a act r w = (
  ok tt,
  record w { audit = w.audit ++ record { actor = a; action = act; resource_id = r } ∷ [] },
)

pub Result-cases :
    {A : Type 0} (r : Result A) → ((e : Error) × (r ≡ err e)) ⊎ ((a : A) × (r ≡ ok a))
Result-cases (ok a) = inr (a, refl)
Result-cases (err e) = inl (e, refl)

settle-ok :
    {A : Type 0} (before : World) (end : Result A × World) (a : A)
    → (settle before end).0 ≡ ok a
    → settle before end ≡ end
settle-ok before (ok x, after) a done = refl
settle-ok before (err e, after) a done = absurd (cc)

-- A transaction that returns has committed what its body wrote.
pub transaction-ok :
    {A : Type 0} (m : Action A) (w : World) (a : A)
    → (transaction m w).0 ≡ ok a
    → transaction m w ≡ m w
transaction-ok m w a = settle-ok w (m w) a

settle-commits :
    {A : Type 0} (before : World) (end : Result A × World) (a : A)
    → end.0 ≡ ok a
    → (settle before end).0 ≡ ok a
settle-commits before (ok x, after) a done = done
settle-commits before (err e, after) a done = absurd (cc)

pub transaction-commits :
    {A : Type 0} (m : Action A) (w : World) (a : A) → (m w).0 ≡ ok a → (transaction m w).0 ≡ ok a
transaction-commits m w a = settle-commits w (m w) a

pub ok_lem : {A : Type 0} {a b : A} → ok a ≡ ok b → a ≡ b
ok_lem h = cc

bound :
    {A B : Type 0} (end : Result A × World) (f : A → Action B) {a : A} {b : B}
    → end.0 ≡ ok a
    → (f a end.1).0 ≡ ok b
    → (((λ (_ : World). end) >>= f) end.1).0 ≡ ok b
bound (ok x, w) f first next = rw (ok_lem first) next
bound (err e, w) f first next = absurd (cc)

-- The result of two actions that return.
pub bind-returns :
    {A B : Type 0} (m : Action A) (f : A → Action B) (w : World) {a : A} {b : B}
    → (m w).0 ≡ ok a
    → (f a (m w).1).0 ≡ ok b
    → ((m >>= f) w).0 ≡ ok b
bind-returns m f w first next = bound (m w) f first next

recovered :
    {A : Type 0} (end : Result A × World) (b : A)
    → (a : A) × ((recover (λ (_ : World). end) (pure b) end.1).0 ≡ ok a)
recovered (ok a, w) b = (a, refl)
recovered (err e, w) b = (b, refl)

-- An action whose exceptions are caught always returns.
pub recover-returns :
    {A : Type 0} (m : Action A) (b : A) (w : World) → (a : A) × ((recover m (pure b) w).0 ≡ ok a)
recover-returns m b w = recovered (m w) b

returned :
    {A B : Type 0} (end : Result A × World) (f : A → Action B) {b : B}
    → (((λ (_ : World). end) >>= f) end.1).0 ≡ ok b
    → (a : A) × (end.0 ≡ ok a) × ((f a end.1).0 ≡ ok b)
returned (ok a, w) f h = (a, refl, h)
returned (err e, w) f h = absurd (cc)

-- Two actions in a row return only if both do.
pub bind-ok :
    {A B : Type 0} (m : Action A) (f : A → Action B) (w : World) {b : B}
    → ((m >>= f) w).0 ≡ ok b
    → (a : A) × ((m w).0 ≡ ok a) × ((f a (m w).1).0 ≡ ok b)
bind-ok m f w h = returned (m w) f h

-- Two actions in a row where the first's whole effect is known.
pub bind-at :
    {A B : Type 0} (m : Action A) (f : A → Action B) (w : World) {a : A} {v : World}
    → m w ≡ (ok a, v)
    → (m >>= f) w ≡ f a v
bind-at m f w {a} {v} e = ap (λ (end : Result _ × World). ((λ (_ : World). end) >>= f) end.1) e
