-- ===== src/Lock/Redis.antt =====
-- `InMemoryMockRedis` of src/infrastructure/redis/redis.mock.ts. The timers only delete what
-- `cleanExpired` deletes at the next access to the key.
use luminarail_backend.Base.{
  ℕ, ◌+◌, Bool, true, false, not, Option, none, some, List, ◌∷◌, find, select, leb, is_some, ◌==◌,
  if◌then◌else◌,
}

-- An entry of the map `store`.
pub record Item : Type 0 where
  pub key : ℕ
  pub value : ℕ
  pub expires_at : Option ℕ

abbrev pub Items : Type 0
Items = List Item

abbrev pub lookup : ℕ → Items → Option Item
lookup k items = find (λ i. i.key == k) items

abbrev pub remove : ℕ → Items → Items
remove k items = select (λ i. not (i.key == k)) items

abbrev pub put : Item → Items → Items
put i items = i ∷ remove i.key items

-- `item && item.expiresAt && item.expiresAt <= Date.now()`
abbrev pub has_expired : ℕ → Option Item → Bool
has_expired now none = false
has_expired now (some i) = elim i.expires_at [ none ↦ false | some t ↦ leb t now ]

unfoldable pub clean_expired : ℕ → ℕ → Items → Items
clean_expired now k items = if has_expired now (lookup k items) then remove k items else items

-- `ttl ? Date.now() + ttl : undefined`
abbrev pub expiry : ℕ → ℕ → Option ℕ
expiry now ttl = if ttl == 0 then none else some (now + ttl)

-- `set(key, value, 'PX', ttl, 'NX')`; the Boolean is the answer 'OK'.
unfoldable pub set_nx : ℕ → ℕ → ℕ → ℕ → Items → Bool × Items
unfolding clean_expired
set_nx now k value ttl items =
    let cleaned = clean_expired now k items in
    if is_some (lookup k cleaned)
    then (false, cleaned)
    else (true, put (record { key = k; value = value; expires_at = expiry now ttl }) cleaned)

-- `currentVal === val`
abbrev pub has_value : ℕ → Option Item → Bool
has_value value none = false
has_value value (some i) = i.value == value

abbrev pub extend : ℕ → ℕ → Option Item → Items → Items
extend now ttl none items = items
extend now ttl (some i) items =
    if ttl == 0 then items else put (record i { expires_at = some (now + ttl) }) items

-- `eval` of the script that extends the time to live, if the value is `value`.
unfoldable pub eval_renew : ℕ → ℕ → ℕ → ℕ → Items → Bool × Items
unfolding clean_expired
eval_renew now k value ttl items =
    let cleaned = clean_expired now k items in
    let item = lookup k cleaned in
    if has_value value item then (true, extend now ttl item cleaned) else (false, cleaned)

-- `eval` of the script that deletes the key, if its value is `value`.
unfoldable pub eval_release : ℕ → ℕ → ℕ → Items → Bool × Items
unfolding clean_expired
eval_release now k value items =
    let cleaned = clean_expired now k items in
    if has_value value (lookup k cleaned) then (true, remove k cleaned) else (false, cleaned)
