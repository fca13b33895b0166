-- ===== src/Lock/Exclusion.antt =====
-- A lock that is held excludes the other processes until it expires.
use luminarail_backend.Base.{
  ℕ, ◌+◌, ◌≡◌, ◌≢◌, ◌<◌, refl, ap, sym, ◌∙◌, Bool, true, false, Option, none, some, is_some, ◌==◌,
  ==-eq, ==-ne, find-passes, Bool-cases, inl, inr, arith,
}
use luminarail_backend.Lock.Redis.{
  Item, Items, lookup, remove, put, has_expired, clean_expired, expiry, set_nx, has_value, extend,
  eval_renew, eval_release,
}
use luminarail_backend.Lock.Live.{lookup-remove, lookup-put, clean-lookup}
use luminarail_backend.Lock.Refinement.{Call}

-- The lock on `k` is the token `a`'s until `e`.
abbrev pub Held : ℕ → ℕ → ℕ → Items → Type 0
Held k a e items = lookup k items ≡ some (record { key = k; value = a; expires_at = some e })

-- The token that a call presents.
abbrev pub token_of : Call → ℕ
token_of (Call.acquiring k token ttl) = token
token_of (Call.renewing l) = l.owner_token
token_of (Call.releasing l) = l.owner_token

pub clean-Held :
    (now j k a e : ℕ) (items : Items)
    → now < e
    → Held k a e items
    → Held k a e (clean_expired now j items)
clean-Held now j k a e items early held = elim (Bool-cases (k == j)) [
  | inl this ↦
      let lives : has_expired now (lookup j items) ≡ false =
        ap (λ i. has_expired now (lookup i items)) (sym (==-eq k j this))
        ∙ (rw held (ground arith)) in
      clean-lookup now j k items ∙ rw (this, lives) held
  | inr other ↦ clean-lookup now j k items ∙ rw other held
]

-- Writing or removing another key leaves the entry.
put-Held :
    (k a e : ℕ) (i : Item) (items : Items) → k ≢ i.key → Held k a e items → Held k a e (put i items)
put-Held k a e i items other held = lookup-put k i items ∙ rw (==-ne k i.key other) held

remove-Held : (k a e j : ℕ) (items : Items) → k ≢ j → Held k a e items → Held k a e (remove j items)
remove-Held k a e j items other held = lookup-remove k j items ∙ rw (==-ne k j other) held

-- Another key, since this one is taken, or since its value is another's.
free-other :
    (k a e j : ℕ) (items : Items) → Held k a e items → is_some (lookup j items) ≡ false → k ≢ j
free-other k a e j items held free same =
    clash (ap (λ i. is_some (lookup i items)) (sym same) ∙ ap is_some held) free
  where
    clash : {b : Bool} → b ≡ true → b ≡ false → ⊥
    clash h g = cc

value-other :
    (k a e j v : ℕ) (items : Items)
    → Held k a e items
    → v ≢ a
    → has_value v (lookup j items) ≡ true
    → k ≢ j
value-other k a e j v items held stranger holds same =
    let own : has_value v (lookup j items) ≡ (a == v) =
      ap (λ i. has_value v (lookup i items)) (sym same) ∙ ap (has_value v) held in
    stranger (sym (==-eq a v (sym own ∙ holds)))

module _ (now k a e : ℕ) (items : Items) (early : now < e) (held : Held k a e items) where
  pub set_nx-Held : (j v ttl : ℕ) → Held k a e (set_nx now j v ttl items).1
  unfolding set_nx
  set_nx-Held j v ttl =
      let cleaned = clean_expired now j items in
      let still = clean-Held now j k a e items early held in
      elim (Bool-cases (is_some (lookup j cleaned))) [
        | inl taken ↦ rw taken still
        | inr free ↦ rw free (
            put-Held k a e (record { key = j; value = v; expires_at = expiry now ttl }) cleaned
              (free-other k a e j cleaned still free) still)
      ]

  extend-Held :
      (j v ttl : ℕ) (o : Option Item)
      → v ≢ a
      → lookup j (clean_expired now j items) ≡ o
      → has_value v o ≡ true
      → Held k a e (extend now ttl o (clean_expired now j items))
  extend-Held j v ttl none stranger found holds = absurd (cc)
  extend-Held j v ttl (some i) stranger found holds =
      let cleaned = clean_expired now j items in
      let still = clean-Held now j k a e items early held in
      let named : i.key ≡ j =
        ==-eq i.key j (find-passes (λ (x : Item). x.key == j) cleaned found) in
      let other = value-other k a e j v cleaned still stranger (ap (has_value v) found ∙ holds) in
      elim (Bool-cases (ttl == 0)) [
        | inl never ↦ rw never still
        | inr later ↦ rw later (
            put-Held k a e (record i { expires_at = some (now + ttl) }) cleaned
              (λ same. other (same ∙ named)) still)
      ]

  pub eval_renew-Held : (j v ttl : ℕ) → v ≢ a → Held k a e (eval_renew now j v ttl items).1
  unfolding eval_renew
  eval_renew-Held j v ttl stranger =
      let item = lookup j (clean_expired now j items) in
      elim (Bool-cases (has_value v item)) [
        | inl holds ↦ rw holds (extend-Held j v ttl item stranger refl holds)
        | inr differs ↦ rw differs (clean-Held now j k a e items early held)
      ]

  pub eval_release-Held : (j v : ℕ) → v ≢ a → Held k a e (eval_release now j v items).1
  unfolding eval_release
  eval_release-Held j v stranger =
      let cleaned = clean_expired now j items in
      let still = clean-Held now j k a e items early held in
      elim (Bool-cases (has_value v (lookup j cleaned))) [
        | inl holds ↦
            rw holds (
              remove-Held k a e j cleaned (value-other k a e j v cleaned still stranger holds)
                still)
        | inr differs ↦ rw differs still
      ]
