-- ===== src/Lock/Refinement.antt =====
-- The lock service as an abstract map from keys to their owners.
use luminarail_backend.Base.{
  ℕ, ◌≡◌, refl, ap, ◌∙◌, Bool, true, false, not, ◌&&◌, Option, none, some, is_some, same_id,
  if◌then◌else◌, Bool-cases, inl, inr,
}
use luminarail_backend.Store.Config.{Config}
use luminarail_backend.Store.Action.{Result, ok, err}
use luminarail_backend.Lock.Redis.{Items, set_nx, eval_renew}
use luminarail_backend.Lock.Service.{Lock, Shared, acquire, acquired, renew, renewed, release}
use luminarail_backend.Lock.Live.{owner}
use luminarail_backend.Lock.Owners.{
  Owners, assign, set_nx-owner, eval_renew-owner, eval_release-owner,
}

pub data Call : Type 0 where
  acquiring : ℕ → ℕ → ℕ → Call
  renewing releasing : Lock → Call

-- A lock, or `true`; no lock, or `false`; an exception.
pub data Answer : Type 0 where
  granted refused thrown : Answer

abbrev pub answer_of : Result (Option Lock) → Answer
answer_of (ok (some l)) = Answer.granted
answer_of (ok none) = Answer.refused
answer_of (err e) = Answer.thrown

abbrev pub answer_if : Bool → Answer
answer_if c = if c then Answer.granted else Answer.refused

-- The answer of a call, and what is shared after it.
unfoldable pub run : Config → Bool → ℕ → Call → Shared → Answer × Shared
unfolding acquire renew release
run cfg reachable now (acquiring k token ttl) s =
    let (answer, after) = acquire cfg reachable now k token ttl s in (answer_of answer, after)
run cfg reachable now (renewing l) s =
    let (answer, l', after) = renew reachable now l s in (answer_if answer, after)
run cfg reachable now (releasing l) s =
    let (answer, l', after) = release reachable now l s in (answer_if answer, after)

-- What a call answers, given whether Redis can be reached, and does to the owners of the keys.
abbrev pub specify : Config → Bool → Call → Owners → Answer × Owners
specify cfg true (acquiring k token ttl) owners =
    let free = not (is_some (owners k)) in
    (answer_if free, λ j. if free then assign k (some token) owners j else owners j)
specify cfg false (acquiring k token ttl) owners =
    (if cfg.locks_required then Answer.thrown else Answer.refused, owners)
specify cfg reachable (renewing l) owners =
    (answer_if (l.owned && reachable && same_id (owners l.key) l.owner_token), owners)
specify cfg reachable (releasing l) owners =
    let holds = l.owned && reachable && same_id (owners l.key) l.owner_token in
    (answer_if holds, λ j. if holds then assign l.key none owners j else owners j)

pub acquired_lem :
    (k token ttl : ℕ) (s : Shared) (answer : Bool × Items)
    → (answer_of (acquired k token ttl s answer).0 ≡ answer_if answer.0)
      × ((acquired k token ttl s answer).1.items ≡ answer.1)
acquired_lem k token ttl s (false, items) = (refl, refl)
acquired_lem k token ttl s (true, items) = (refl, refl)

pub renewed_lem :
    (l : Lock) (s : Shared) (answer : Bool × Items)
    → ((renewed l s answer).0 ≡ answer.0) × ((renewed l s answer).2.items ≡ answer.1)
renewed_lem l s (false, items) = (refl, refl)
renewed_lem l s (true, items) = (refl, refl)

-- Every call of the lock service answers, and changes the owners of all keys at the time of the call,
-- as the abstract map of owners does. If Redis can be reached, an acquisition is granted exactly if the
-- key has no owner; if not, it throws where locks are required and is refused elsewhere. A renewal or a
-- release is granted exactly if Redis can be reached, the lock is not marked as lost and its token owns
-- the key; a renewal changes no owner, and a release removes only its own.
pub call_refines :
    (cfg : Config) (reachable : Bool) (now : ℕ) (call : Call) (s : Shared) (j : ℕ)
    → let (answer, after) = run cfg reachable now call s in
      let (expected, owners) = specify cfg reachable call (owner now s.items) in
      (answer ≡ expected) × (owner now after.items j ≡ owners j)
unfolding run acquire renew release
call_refines cfg true now (acquiring k token ttl) s j =
    let answer = set_nx now k token ttl s.items in
    let (grant, items) = acquired_lem k token ttl s answer in
    let (same, owners) = set_nx-owner now k token ttl s.items j in
    (grant ∙ ap answer_if same, ap (λ x. owner now x j) items ∙ owners)
call_refines cfg false now (acquiring k token ttl) s j = elim (Bool-cases cfg.locks_required) [
  | inl required ↦ rw required (refl, refl)
  | inr optional ↦ rw optional (refl, refl)
]
call_refines cfg true now (renewing l) s j = elim (Bool-cases l.owned) [
  | inl owned ↦
      let (same, owners) = eval_renew-owner now l.key l.owner_token l.ttl s.items j in
      let (answer, items) =
        renewed_lem (record l { owned = true }) s
          (eval_renew now l.key l.owner_token l.ttl s.items) in
      rw owned (ap answer_if (answer ∙ same), ap (λ x. owner now x j) items ∙ owners)
  | inr lost ↦ rw lost (refl, refl)
]
call_refines cfg false now (renewing l) s j = elim (Bool-cases l.owned) [
  | inl owned ↦ rw owned (refl, refl)
  | inr lost ↦ rw lost (refl, refl)
]
call_refines cfg true now (releasing l) s j = elim (Bool-cases l.owned) [
  | inl owned ↦
      let (same, owners) = eval_release-owner now l.key l.owner_token s.items j in
      rw owned (ap answer_if same, owners)
  | inr lost ↦ rw lost (refl, refl)
]
call_refines cfg false now (releasing l) s j = elim (Bool-cases l.owned) [
  | inl owned ↦ rw owned (refl, refl)
  | inr lost ↦ rw lost (refl, refl)
]
