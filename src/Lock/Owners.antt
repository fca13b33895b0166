-- ===== src/Lock/Owners.antt =====
-- The lock service as a map from keys to their owners, and that Redis' scripts implement it.
use luminarail_backend.Base.{
  ℕ, ◌+◌, ◌≡◌, refl, ap, sym, ◌∙◌, true, not, Option, none, some, is_some, ◌==◌, ==-eq, same_id,
  find-passes, if◌then◌else◌, Bool-cases, inl, inr, arith,
}
use luminarail_backend.Lock.Redis.{
  Item, Items, lookup, remove, put, clean_expired, expiry, set_nx, has_value, extend, eval_renew,
  eval_release,
}
use luminarail_backend.Lock.Live.{
  live, owner, value_of, lookup-remove, lookup-put, clean-value, clean-owner,
}

abbrev pub Owners : Type 0
Owners = ℕ → Option ℕ

abbrev pub assign : ℕ → Option ℕ → Owners → Owners
assign k o owners j = if j == k then o else owners j

is_some-value : (o : Option Item) → is_some o ≡ is_some (value_of o)
is_some-value none = refl
is_some-value (some i) = refl

has_value-value : (v : ℕ) (o : Option Item) → has_value v o ≡ same_id (value_of o) v
has_value-value v none = refl
has_value-value v (some i) = refl

owner-put :
    (now j : ℕ) (i : Item) (items : Items)
    → owner now (put i items) j ≡ (if j == i.key then live now (some i) else owner now items j)
owner-put now j i items = elim (Bool-cases (j == i.key)) [
  | inl this ↦ rw (lookup-put j i items) (rw this refl)
  | inr other ↦ rw (lookup-put j i items) (rw other refl)
]

owner-remove :
    (now j k : ℕ) (items : Items)
    → owner now (remove k items) j ≡ (if j == k then none else owner now items j)
owner-remove now j k items = elim (Bool-cases (j == k)) [
  | inl this ↦ rw (lookup-remove j k items) (rw this refl)
  | inr other ↦ rw (lookup-remove j k items) (rw other refl)
]

-- An entry that is written now with a time to live has not expired.
expiry-live :
    (now k v ttl : ℕ)
    → live now (some (record { key = k; value = v; expires_at = expiry now ttl })) ≡ some v
expiry-live now k v ttl = ground arith

free_lem :
    (now k : ℕ) (items : Items)
    → is_some (lookup k (clean_expired now k items)) ≡ is_some (owner now items k)
free_lem now k items =
    is_some-value (lookup k (clean_expired now k items)) ∙ ap is_some (clean-value now k items)

holds_lem :
    (now k v : ℕ) (items : Items)
    → has_value v (lookup k (clean_expired now k items)) ≡ same_id (owner now items k) v
holds_lem now k v items =
    has_value-value v (lookup k (clean_expired now k items))
    ∙ ap (λ o. same_id o v) (clean-value now k items)

-- An entry that is written over the cleaned map, and is live, makes its value the owner.
written :
    (now j : ℕ) (i : Item) (items : Items) {v : ℕ}
    → live now (some i) ≡ some v
    → owner now (put i (clean_expired now i.key items)) j
      ≡ assign i.key (some v) (owner now items) j
written now j i items lives =
    owner-put now j i (clean_expired now i.key items) ∙ elim (Bool-cases (j == i.key)) [
      | inl this ↦ rw this lives
      | inr other ↦ rw other (clean-owner now i.key j items)
    ]

removed :
    (now j k : ℕ) (items : Items)
    → owner now (remove k (clean_expired now k items)) j ≡ assign k none (owner now items) j
removed now j k items =
    owner-remove now j k (clean_expired now k items) ∙ elim (Bool-cases (j == k)) [
      | inl this ↦ rw this refl
      | inr other ↦ rw other (clean-owner now k j items)
    ]

-- `SET NX` succeeds exactly if nobody owns the key, and then makes its caller the owner.
pub set_nx-owner :
    (now k v ttl : ℕ) (items : Items) (j : ℕ)
    → let free = not (is_some (owner now items k)) in
      ((set_nx now k v ttl items).0 ≡ free)
      × (owner now (set_nx now k v ttl items).1 j
          ≡ (if free then assign k (some v) (owner now items) j else owner now items j))
unfolding set_nx
set_nx-owner now k v ttl items j = elim (Bool-cases (is_some (owner now items k))) [
  | inl taken ↦ rw (free_lem now k items) (rw taken (refl, clean-owner now k j items))
  | inr free ↦
      let i : Item = record { key = k; value = v; expires_at = expiry now ttl } in
      rw (free_lem now k items) (rw free (refl, written now j i items (expiry-live now k v ttl)))
]

-- The script that deletes the key does so exactly if its owner asks.
pub eval_release-owner :
    (now k v : ℕ) (items : Items) (j : ℕ)
    → let holds = same_id (owner now items k) v in
      ((eval_release now k v items).0 ≡ holds)
      × (owner now (eval_release now k v items).1 j
          ≡ (if holds then assign k none (owner now items) j else owner now items j))
unfolding eval_release
eval_release-owner now k v items j = elim (Bool-cases (same_id (owner now items k) v)) [
  | inl holds ↦ rw (holds_lem now k v items) (rw holds (refl, removed now j k items))
  | inr differs ↦ rw (holds_lem now k v items) (rw differs (refl, clean-owner now k j items))
]

extended :
    (now k j ttl : ℕ) (items : Items) (i : Item)
    → lookup k (clean_expired now k items) ≡ some i
    → owner now (extend now ttl (some i) (clean_expired now k items)) j ≡ owner now items j
extended now k j ttl items i found = elim (Bool-cases (ttl == 0)) [
  | inl never ↦ rw never (clean-owner now k j items)
  | inr later ↦
      let i' : Item = record i { expires_at = some (now + ttl) } in
      let lives : live now (some i') ≡ some i.value = ground arith in
      let named : i.key ≡ k =
        ==-eq i.key k (find-passes (λ (x : Item). x.key == k) (clean_expired now k items) found) in
      let same : owner now items k ≡ some i.value =
        sym (clean-value now k items) ∙ ap value_of found in
      rw later (
        owner-put now j i' (clean_expired now k items) ∙ elim (Bool-cases (j == i.key)) [
          | inl this ↦
              rw this (lives ∙ sym (ap (owner now items) (==-eq j i.key this ∙ named) ∙ same))
          | inr other ↦ rw other (clean-owner now k j items)
        ])
]

extended_found :
    (now k v j ttl : ℕ) (items : Items) (o : Option Item)
    → lookup k (clean_expired now k items) ≡ o
    → has_value v o ≡ true
    → owner now (extend now ttl o (clean_expired now k items)) j ≡ owner now items j
extended_found now k v j ttl items none found holds = absurd (cc)
extended_found now k v j ttl items (some i) found holds = extended now k j ttl items i found

-- The script that extends the time to live changes no owner, and succeeds exactly if the owner asks.
pub eval_renew-owner :
    (now k v ttl : ℕ) (items : Items) (j : ℕ)
    → ((eval_renew now k v ttl items).0 ≡ same_id (owner now items k) v)
      × (owner now (eval_renew now k v ttl items).1 j ≡ owner now items j)
unfolding eval_renew
eval_renew-owner now k v ttl items j =
    let item = lookup k (clean_expired now k items) in
    elim (Bool-cases (has_value v item)) [
      | inl holds ↦
          rw holds (
            sym holds ∙ holds_lem now k v items,
            extended_found now k v j ttl items item refl holds,
          )
      | inr differs ↦ rw differs (sym differs ∙ holds_lem now k v items, clean-owner now k j items)
    ]
