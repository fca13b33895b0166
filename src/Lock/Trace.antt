-- ===== src/Lock/Trace.antt =====
-- Calls of the lock service by several processes, one after the other.
use luminarail_backend.Base.{
  ℕ, ◌+◌, ◌≡◌, ◌≢◌, ◌<◌, refl, sym, subst, Bool, true, false, none, some, List, [], ◌∷◌, All,
  is_some, Bool-cases, inl, inr, arith,
}
use luminarail_backend.Store.Config.{Config}
use luminarail_backend.Store.Action.{ok}
use luminarail_backend.Lock.Redis.{lookup, clean_expired, expiry, set_nx, eval_renew}
use luminarail_backend.Lock.Service.{Lock, Shared, acquire, renew, release}
use luminarail_backend.Lock.Live.{owner, lookup-put}
use luminarail_backend.Lock.Refinement.{Call, run, acquired_lem, renewed_lem}
use luminarail_backend.Lock.Exclusion.{
  Held, token_of, clean-Held, set_nx-Held, eval_renew-Held, eval_release-Held,
}

pub record Step : Type 0 where
  pub reachable : Bool
  pub time : ℕ
  pub call : Call

unfoldable pub run_all : Config → List Step → Shared → Shared
unfolding run
run_all cfg [] s = s
run_all cfg (x ∷ xs) s = run_all cfg xs (run cfg x.reachable x.time x.call s).1

-- Calls before the time `e` that do not present the token `a`.
abbrev pub Strangers : ℕ → ℕ → List Step → Type 0
Strangers a e = All (λ x. (x.time < e) × (token_of x.call ≢ a))

module _ (cfg : Config) (k a e : ℕ) where
  run-Held :
      (reachable : Bool) (now : ℕ) (call : Call) (s : Shared)
      → now < e
      → token_of call ≢ a
      → Held k a e s.items
      → Held k a e (run cfg reachable now call s).1.items
  unfolding run acquire renew release
  run-Held true now (Call.acquiring j v ttl) s early stranger held =
      subst (Held k a e) (sym (acquired_lem j v ttl s (set_nx now j v ttl s.items)).1)
        (set_nx-Held now k a e s.items early held j v ttl)
  run-Held false now (Call.acquiring j v ttl) s early stranger held =
      elim (Bool-cases cfg.locks_required) [
        | inl required ↦ rw required held
        | inr optional ↦ rw optional held
      ]
  run-Held true now (Call.renewing l) s early stranger held = elim (Bool-cases l.owned) [
    | inl owned ↦
        let answer = eval_renew now l.key l.owner_token l.ttl s.items in
        rw owned (
          subst (Held k a e) (sym (renewed_lem (record l { owned = true }) s answer).1)
            (eval_renew-Held now k a e s.items early held l.key l.owner_token l.ttl stranger))
    | inr lost ↦ rw lost held
  ]
  run-Held false now (Call.renewing l) s early stranger held = elim (Bool-cases l.owned) [
    | inl owned ↦ rw owned held
    | inr lost ↦ rw lost held
  ]
  run-Held true now (Call.releasing l) s early stranger held = elim (Bool-cases l.owned) [
    | inl owned ↦
        rw owned (eval_release-Held now k a e s.items early held l.key l.owner_token stranger)
    | inr lost ↦ rw lost held
  ]
  run-Held false now (Call.releasing l) s early stranger held = elim (Bool-cases l.owned) [
    | inl owned ↦ rw owned held
    | inr lost ↦ rw lost held
  ]

  run_all-Held :
      (steps : List Step) (s : Shared)
      → Strangers a e steps
      → Held k a e s.items
      → Held k a e (run_all cfg steps s).items
  unfolding run_all
  run_all-Held [] s strangers held = held
  run_all-Held (x ∷ xs) s strangers held =
      run_all-Held xs (run cfg x.reachable x.time x.call s).1 strangers.1
        (run-Held x.reachable x.time x.call s strangers.0.0 strangers.0.1 held)

-- A lock that has been granted is held until its time to live is over.
acquire-Held :
    (cfg : Config) (now k a ttl : ℕ) (s : Shared) (l : Lock)
    → ttl ≢ 0
    → (acquire cfg true now k a ttl s).0 ≡ ok (some l)
    → Held k a (now + ttl) (acquire cfg true now k a ttl s).1.items
unfolding acquire set_nx
acquire-Held cfg now k a ttl s l lasts granted =
    let cleaned = clean_expired now k s.items in
    elim (Bool-cases (is_some (lookup k cleaned))) [
      | inl taken ↦ absurd (nothing (rw taken at granted))
      | inr free ↦ rw free (
          ground (
            arith,
            lookup-put k (record { key = k; value = a; expires_at = expiry now ttl }) cleaned,
          ))
    ]
  where
    nothing : {l : Lock} → ok none ≡ ok (some l) → ⊥
    nothing h = cc

-- Before its expiry a held lock is granted to nobody.
Held-excludes :
    (cfg : Config) (now k a e v ttl : ℕ) (s : Shared)
    → now < e
    → Held k a e s.items
    → ((acquire cfg true now k v ttl s).0 ≡ ok none) × (owner now s.items k ≡ some a)
unfolding acquire set_nx
Held-excludes cfg now k a e v ttl s early held =
    let still = clean-Held now k k a e s.items early held in (rw still refl, rw held (ground arith))

-- After a lock with a time to live has been granted, and until that time is over, whatever calls the
-- other processes make in between that do not present its token, the key's owner is that token and
-- every further acquisition of the key returns null.
pub lock_excludes :
    (cfg : Config) (now k a ttl : ℕ) (s : Shared) (l : Lock) (steps : List Step)
    (late v later_ttl : ℕ)
    → ttl ≢ 0
    → (acquire cfg true now k a ttl s).0 ≡ ok (some l)
    → Strangers a (now + ttl) steps
    → late < now + ttl
    → let after = run_all cfg steps (acquire cfg true now k a ttl s).1 in
      ((acquire cfg true late k v later_ttl after).0 ≡ ok none)
      × (owner late after.items k ≡ some a)
lock_excludes cfg now k a ttl s l steps late v later_ttl lasts granted strangers early =
    let first = (acquire cfg true now k a ttl s).1 in
    Held-excludes cfg late k a (now + ttl) v later_ttl (run_all cfg steps first) early (
      run_all-Held cfg k a (now + ttl) steps first strangers
        (acquire-Held cfg now k a ttl s l lasts granted))
