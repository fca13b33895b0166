-- ===== src/Liquidity/Invariant.antt =====
-- The invariant that ties the pools to the reservations, and how it moves with the tables.
use luminarail_backend.Base.{
  some, ap, if◌then◌else◌, find-append_fresh, ℕ, suc, ◌≤◌, ◌<◌, ◌≡◌, ◌≢◌, refl, sym, Bool, inl, inr,
  List, [], ◌∷◌, ◌++◌, arith, find, update, All, OnFound, Distinct, All-update, Distinct-update,
  find-update_same, find-update_other, ◌==◌, ==-eq, All-find, Bool-cases, Distinct-append,
  find-passes, OnFound-map, subst, dec_eq, ◌∙◌,
}
use luminarail_backend.Int.{pos, surplus, debt, ◌-ℤ◌, ◌≤ℤ◌, integers}
use luminarail_backend.Store.Rows.{Pool, Reservation, World}
use luminarail_backend.Liquidity.Held.{
  held_absent, held, weight, IsPositive, held-append, held-update, weight_other,
}

-- What is reserved is what the active reservations hold, no more than there is, and what is
-- available is the rest.
pub record PoolIsSound (rs : List Reservation) (p : Pool) : Type 0 where
  pub reserved_held : p.reserved_balance ≡ held p.id rs
  pub available_rest : p.available_balance ≡ p.total_balance -ℤ p.reserved_balance
  pub covered : p.reserved_balance ≤ℤ p.total_balance

-- Of the pools `ps` and the reservations `rs`, where the ids below `n` are taken.
pub record TablesAreSound (ps : List Pool) (rs : List Reservation) (n : ℕ) : Type 0 where
  pub pools_sound : (k : ℕ) → OnFound (PoolIsSound rs) (find (λ p. p.id == k) ps)
  pub amounts_positive : All IsPositive rs
  pub ids_distinct : Distinct (λ (r : Reservation). r.id) rs
  pub ids_taken : All (λ (r : Reservation). r.id < n) rs
  pub pool_ids_taken : All (λ (r : Reservation). r.pool_id < n) rs
  pub pools_taken : All (λ (p : Pool). p.id < n) ps

abbrev pub IsSound : World → Type 0
IsSound w = TablesAreSound w.tables.pools w.tables.reservations w.next_id

-- The shape in which an operation's result is handed on.
pub IsSound-at :
    {ps : List Pool} {rs : List Reservation} {n : ℕ} (w : World)
    → TablesAreSound ps rs n
    → w.tables.pools ≡ ps
    → w.tables.reservations ≡ rs
    → w.next_id ≡ n
    → IsSound w
IsSound-at w h p r n = rw (p, r, n) h

pub PoolIsSound-cong :
    (rs rs' : List Reservation) (p : Pool)
    → held p.id rs' ≡ held p.id rs
    → PoolIsSound rs p
    → PoolIsSound rs' p
PoolIsSound-cong rs rs' p e h = record {
  reserved_held = h.reserved_held ∙ sym e;
  available_rest = h.available_rest;
  covered = h.covered;
}

OnFound-cong :
    (rs rs' : List Reservation) (k : ℕ) (ps : List Pool)
    → held k rs' ≡ held k rs
    → OnFound (PoolIsSound rs) (find (λ p. p.id == k) ps)
    → OnFound (PoolIsSound rs') (find (λ p. p.id == k) ps)
OnFound-cong rs rs' k ps e = OnFound-map (PoolIsSound rs) (PoolIsSound rs') _ (λ p found.
    let same : p.id ≡ k = ==-eq p.id k (find-passes (λ (q : Pool). q.id == k) ps found) in
    PoolIsSound-cong rs rs' p (subst (λ j. held j rs' ≡ held j rs) (sym same) e))

-- One pool is written anew, and the reservations move on that pool alone.
pub pools_step :
    (k : ℕ) (f : Pool → Pool) (ps : List Pool) (rs rs' : List Reservation) (p : Pool)
    → ((j : ℕ) → OnFound (PoolIsSound rs) (find (λ q. q.id == j) ps))
    → find (λ q. q.id == k) ps ≡ some p
    → ((q : Pool) → (f q).id ≡ q.id)
    → PoolIsSound rs' (f p)
    → ((j : ℕ) → j ≢ k → held j rs' ≡ held j rs)
    → (j : ℕ) → OnFound (PoolIsSound rs') (find (λ q. q.id == j) (update (λ q. q.id == k) f ps))
pools_step k f ps rs rs' p h e keeps new others j = elim (dec_eq j k) [
  | yes same ↦ rw (same, find-update_same (λ (q : Pool). q.id) k f ps p e (keeps p)) new
  | no other ↦
      rw (find-update_other (λ (q : Pool). q.id) j k f ps other keeps)
        (OnFound-cong rs rs' j ps (others j other) (h j))
]

pub All-weaken {ℓ} :
    {A : Type ℓ} (key : A → ℕ) (n m : ℕ) (xs : List A)
    → n ≤ m
    → All (λ x. key x < n) xs
    → All (λ x. key x < m) xs
All-weaken key n m [] l h = tt
All-weaken key n m (x ∷ xs) l h = (omega (arith, h.0), All-weaken key n m xs l h.1)

pub All-append {ℓ κ} :
    {A : Type ℓ} (P : A → Type κ) (xs : List A) (x : A) → All P xs → P x → All P (xs ++ x ∷ [])
All-append P [] x h k = (k, tt)
All-append P (y ∷ ys) x h k = (h.0, All-append P ys x h.1 k)

-- A key that an update keeps keeps its bound.
pub All-update_key {ℓ} :
    {A : Type ℓ} (key : A → ℕ) (n : ℕ) (p : A → Bool) (f : A → A) (xs : List A)
    → ((x : A) → key (f x) ≡ key x)
    → All (λ x. key x < n) xs
    → All (λ x. key x < n) (update p f xs)
All-update_key key n p f [] k h = tt
All-update_key key n p f (x ∷ xs) k h = elim (Bool-cases (p x)) [
  | inl hit ↦ rw hit (rw (k x) h.0, h.1)
  | inr miss ↦ rw miss (h.0, All-update_key key n p f xs k h.1)
]

-- More ids taken do no harm.
pub sound_weaken :
    {ps : List Pool} {rs : List Reservation} (n m : ℕ)
    → n ≤ m
    → TablesAreSound ps rs n
    → TablesAreSound ps rs m
sound_weaken {ps} {rs} n m l h = record {
  pools_sound = h.pools_sound;
  amounts_positive = h.amounts_positive;
  ids_distinct = h.ids_distinct;
  ids_taken = All-weaken (λ (r : Reservation). r.id) n m rs l h.ids_taken;
  pool_ids_taken = All-weaken (λ (r : Reservation). r.pool_id) n m rs l h.pool_ids_taken;
  pools_taken = All-weaken (λ (p : Pool). p.id) n m ps l h.pools_taken;
}

-- A reservation is added to the table, and its pool is written anew.
module _ {ps : List Pool} {rs : List Reservation} (n : ℕ) (h : TablesAreSound ps rs n) (p : Pool)
    (f : Pool → Pool) (r : Reservation) (found : find (λ q. q.id == p.id) ps ≡ some p)
    (keeps : (q : Pool) → (f q).id ≡ q.id) (named : r.pool_id ≡ p.id) (fresh_id : r.id ≡ n)
    (amount : IsPositive r) where
  pub sound_insert :
      PoolIsSound (rs ++ r ∷ []) (f p)
      → TablesAreSound (update (λ q. q.id == p.id) f ps) (rs ++ r ∷ []) (suc n)
  sound_insert new = record {
    pools_sound = pools_step p.id f ps rs (rs ++ r ∷ []) p h.pools_sound found keeps new others;
    amounts_positive = All-append IsPositive rs r h.amounts_positive amount;
    ids_distinct =
        Distinct-append (λ (x : Reservation). x.id) r rs (rw fresh_id h.ids_taken) h.ids_distinct;
    ids_taken =
        All-append (λ x. x.id < suc n) rs r
          (All-weaken (λ (x : Reservation). x.id) n (suc n) rs (omega arith) h.ids_taken)
          (omega arith);
    pool_ids_taken =
        All-append (λ x. x.pool_id < suc n) rs r
          (All-weaken (λ (x : Reservation). x.pool_id) n (suc n) rs (omega arith) h.pool_ids_taken)
          (omega (arith, taken));
    pools_taken =
        All-update_key (λ (q : Pool). q.id) (suc n) (λ q. q.id == p.id) f ps keeps
          (All-weaken (λ (q : Pool). q.id) n (suc n) ps (omega arith) h.pools_taken);
  }
    where
      taken : p.id < n
      taken = All-find (λ (q : Pool). q.id < n) (λ q. q.id == p.id) ps h.pools_taken found

      others : (j : ℕ) → j ≢ p.id → held j (rs ++ r ∷ []) ≡ held j rs
      others j ne = grind (integers, held-append j r rs, weight_other j r (λ e. ne (e ∙ named)))

-- A reservation of the pool is written anew, and so is the pool.
module _ {ps : List Pool} {rs : List Reservation} {n : ℕ} (h : TablesAreSound ps rs n) (p : Pool)
    (f : Pool → Pool) (r : Reservation) (g : Reservation → Reservation)
    (found : find (λ q. q.id == p.id) ps ≡ some p)
    (found_row : find (λ x. x.id == r.id) rs ≡ some r) (keeps : (q : Pool) → (f q).id ≡ q.id)
    (keeps_id : (x : Reservation) → (g x).id ≡ x.id)
    (keeps_pool : (x : Reservation) → (g x).pool_id ≡ x.pool_id)
    (keeps_amount : (x : Reservation) → (g x).amount ≡ x.amount) (named : r.pool_id ≡ p.id) where
  pub sound_update :
      PoolIsSound (update (λ x. x.id == r.id) g rs) (f p)
      → TablesAreSound (update (λ q. q.id == p.id) f ps) (update (λ x. x.id == r.id) g rs) n
  sound_update new = record {
    pools_sound = pools_step p.id f ps rs _ p h.pools_sound found keeps new others;
    amounts_positive =
        All-update IsPositive (λ x. x.id == r.id) g rs h.amounts_positive found_row
          (rw (keeps_amount r)
            (All-find IsPositive (λ x. x.id == r.id) rs h.amounts_positive found_row));
    ids_distinct =
        Distinct-update (λ (x : Reservation). x.id) (λ x. x.id == r.id) g rs keeps_id
          h.ids_distinct;
    ids_taken =
        All-update_key (λ (x : Reservation). x.id) n (λ x. x.id == r.id) g rs keeps_id h.ids_taken;
    pool_ids_taken =
        All-update_key (λ (x : Reservation). x.pool_id) n (λ x. x.id == r.id) g rs keeps_pool
          h.pool_ids_taken;
    pools_taken =
        All-update_key (λ (q : Pool). q.id) n (λ q. q.id == p.id) f ps keeps h.pools_taken;
  }
    where
      others : (j : ℕ) → j ≢ p.id → held j (update (λ x. x.id == r.id) g rs) ≡ held j rs
      others j ne = grind (
        integers,
        held-update j (λ x. x.id == r.id) g rs r found_row,
        weight_other j r (λ e. ne (e ∙ named)),
        weight_other j (g r) (λ e. ne (e ∙ keeps_pool r ∙ named)),
      )

-- The pool alone is written anew.
pub sound_pool :
    {ps : List Pool} {rs : List Reservation} {n : ℕ} (k : ℕ) (f : Pool → Pool) (p : Pool)
    → TablesAreSound ps rs n
    → find (λ q. q.id == k) ps ≡ some p
    → ((q : Pool) → (f q).id ≡ q.id)
    → PoolIsSound rs (f p)
    → TablesAreSound (update (λ q. q.id == k) f ps) rs n
sound_pool {ps} {rs} {n} k f p h found keeps new = record {
  pools_sound = pools_step k f ps rs rs p h.pools_sound found keeps new (λ j ne. refl);
  amounts_positive = h.amounts_positive;
  ids_distinct = h.ids_distinct;
  ids_taken = h.ids_taken;
  pool_ids_taken = h.pool_ids_taken;
  pools_taken = All-update_key (λ (q : Pool). q.id) n (λ q. q.id == k) f ps keeps h.pools_taken;
}

-- A reservation alone is written anew, and holds what it held.
pub sound_row :
    {ps : List Pool} {rs : List Reservation} {n : ℕ} (r : Reservation)
    (g : Reservation → Reservation)
    → TablesAreSound ps rs n
    → find (λ x. x.id == r.id) rs ≡ some r
    → ((x : Reservation) → (g x).id ≡ x.id)
    → ((x : Reservation) → (g x).pool_id ≡ x.pool_id)
    → ((x : Reservation) → (g x).amount ≡ x.amount)
    → ((k : ℕ) → weight k (g r) ≡ weight k r)
    → TablesAreSound ps (update (λ x. x.id == r.id) g rs) n
sound_row {ps} {rs} {n} r g h row keeps_id keeps_pool keeps_amount same = record {
  pools_sound = λ j.
      OnFound-cong rs _ j ps
        (grind (integers, held-update j (λ x. x.id == r.id) g rs r row, same j)) (h.pools_sound j);
  amounts_positive =
      All-update IsPositive (λ x. x.id == r.id) g rs h.amounts_positive row
        (rw (keeps_amount r) (All-find IsPositive (λ x. x.id == r.id) rs h.amounts_positive row));
  ids_distinct =
      Distinct-update (λ (x : Reservation). x.id) (λ x. x.id == r.id) g rs keeps_id h.ids_distinct;
  ids_taken =
      All-update_key (λ (x : Reservation). x.id) n (λ x. x.id == r.id) g rs keeps_id h.ids_taken;
  pool_ids_taken =
      All-update_key (λ (x : Reservation). x.pool_id) n (λ x. x.id == r.id) g rs keeps_pool
        h.pool_ids_taken;
  pools_taken = h.pools_taken;
}

-- A pool is opened with nothing reserved.
pub sound_open :
    {ps : List Pool} {rs : List Reservation} (n : ℕ) (p : Pool)
    → TablesAreSound ps rs n
    → p.id ≡ n
    → p.reserved_balance ≡ pos 0
    → p.available_balance ≡ p.total_balance
    → pos 0 ≤ℤ p.total_balance
    → TablesAreSound (ps ++ p ∷ []) rs (suc n)
sound_open {ps} {rs} n p h id empty all_free nonneg = record {
  pools_sound =
      λ k. rw (find-append_fresh (λ (q : Pool). q.id) k n p ps id h.pools_taken) (opened k);
  amounts_positive = h.amounts_positive;
  ids_distinct = h.ids_distinct;
  ids_taken = All-weaken (λ (r : Reservation). r.id) n (suc n) rs (omega arith) h.ids_taken;
  pool_ids_taken =
      All-weaken (λ (r : Reservation). r.pool_id) n (suc n) rs (omega arith) h.pool_ids_taken;
  pools_taken =
      All-append (λ q. q.id < suc n) ps p
        (All-weaken (λ (q : Pool). q.id) n (suc n) ps (omega arith) h.pools_taken) (omega arith);
}
  where
    fresh_pool : PoolIsSound rs p
    fresh_pool = record {
      reserved_held =
          empty
          ∙ sym (
              held_absent p.id rs (
                subst (λ k. All (λ (r : Reservation). r.pool_id < k) rs) (sym id)
                  h.pool_ids_taken));
      available_rest = grind (integers, empty, all_free);
      covered = omega (arith, ap surplus empty, ap debt empty, nonneg);
    }

    opened :
        (k : ℕ) → OnFound (PoolIsSound rs) (if n == k then some p else find (λ q. q.id == k) ps)
    opened k = elim (Bool-cases (n == k)) [
      | inl hit ↦ rw hit fresh_pool
      | inr miss ↦ rw miss (h.pools_sound k)
    ]
