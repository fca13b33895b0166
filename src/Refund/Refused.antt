-- ===== src/Refund/Refused.antt =====
-- Executions of a refund that ask the provider again, of modules/refunds/refunds.service.ts: after a
-- refusal that cannot be recorded, and while another process holds the lock.
use luminarail_backend.Base.{
  Bool, if◌then◌else◌, ◌&&◌, false, ℕ, ◌≡◌, refl, true, some, find, ◌==◌, ◌===◌, sym, ap, ◌∙◌,
  subst, List, find-update_all, select-find, ==-refl, length, select, update_all,
}
use luminarail_backend.Store.Status.{OrderStatus, RefundStatus, refund_status_enum}
use luminarail_backend.Store.Rows.{World, Order, Refund, Actor}
use luminarail_backend.Store.Config.{Config}
use luminarail_backend.Lock.Guard.{
  LockAnswer, is_acquired, is_unreachable, take_lock, finally_release,
}
use luminarail_backend.Store.Action.{
  Action, or_raise, provider_failed, record_missing, bind-at, pure, err, invalid_order_transition,
  transaction, audit_log, ◌>>=◌, ◌>>◌, settle,
}
use luminarail_backend.Store.Table.{set_refunds, update_refund}
use luminarail_backend.Machine.Refund
use luminarail_backend.Machine.Order
use luminarail_backend.Refund.Execute.{
  ProviderAnswer, Surroundings, fail_in_tx, fail, handle_answer, claim_and_call, call_provider,
  execute_in_try, execute_refund,
}

no_failure :
    (o : Order)
    → o.status ≡ OrderStatus.refunded
    → Order.can_transition o.status OrderStatus.refund_failed ≡ false
unfolding Order.can_transition
no_failure o refunded = rw refunded refl

thrown_in_tx :
    (r : Refund) (o : Order) (answer : ProviderAnswer) (w : World)
    → o.status ≡ OrderStatus.refunded
    → find (λ x. x.id == r.id) w.tables.refunds ≡ some r
    → (rows : List Refund) × (fail_in_tx r o answer w
        ≡ (err invalid_order_transition, set_refunds rows w))
unfolding fail_in_tx
thrown_in_tx r o answer w refunded row =
    let refused = no_failure o refunded in
    (
      (fail_in_tx r o answer w).1.tables.refunds,
      rw (row, ◌>>=◌, ◌>>◌) (rw refused (rw (row, update_refund) refl)),
    )

refusal_thrown :
    (actor : Actor) (r : Refund) (o : Order) (answer : ProviderAnswer) (w : World)
    → o.status ≡ OrderStatus.refunded
    → find (λ x. x.id == r.id) w.tables.refunds ≡ some r
    → fail actor r o answer w ≡ (err invalid_order_transition, w)
unfolding fail
refusal_thrown actor r o answer w refunded row =
    let (rows, threw) = thrown_in_tx r o answer w refunded row in
    let restored : transaction (fail_in_tx r o answer) w ≡ (err invalid_order_transition, w) =
      ap (settle w) threw in
    rw (◌>>=◌, restored) (rw restored refl)

-- The world in which the provider is called: `between` and `during` are what other processes commit
-- before and after the claim.
abbrev at_call : Surroundings → Refund → World → World
at_call env r w =
    let v = env.between w in
    env.during (
      set_refunds
        (update_all (λ x. x.id == r.id && x.status === r.status)
          (λ x. record x { status = RefundStatus.processing }) v.tables.refunds)
        v)

module _ (cfg : Config) (env : Surroundings) (actor : Actor) (r0 : Refund) (o : Order) (w : World)
    (before : (v : World) → (env.between v).tables ≡ v.tables)
    (during : (v : World) → (env.during v).tables ≡ v.tables)
    (kept : (is_acquired env.lock && env.lost_before) ≡ false)
    (kept_at_call : (is_acquired env.lock && env.lost_at_call) ≡ false) where
  -- The refund's row, whose status is PROCESSING.
  abbrev r : Refund
  r = record r0 { status = RefundStatus.processing }

  abbrev ours : Refund → Bool
  ours x = x.id == r.id && x.status === RefundStatus.processing

  is_ours : ours r ≡ true
  is_ours = rw (==-refl r.id) refl

  module _ (v : World) (same : v.tables ≡ w.tables)
      (row : find (λ x. x.id == r.id) w.tables.refunds ≡ some r)
      (order_row : find (λ x. x.id == r.order_id) w.tables.orders ≡ some o) where
    there : find (λ x. x.id == r.id) (env.between v).tables.refunds ≡ some r
    there = rw (before v) (rw same row)

    claimed_row :
        find
          (λ x. x.id == r.id)
          (update_all ours
            (λ x. record x { status = RefundStatus.processing })
            (env.between v).tables.refunds)
        ≡ some r
    claimed_row =
        find-update_all ours (λ x. x.id == r.id)
          (λ x. record x { status = RefundStatus.processing }) (env.between v).tables.refunds r
          there is_ours (λ y. refl)

    row_at_call : find (λ x. x.id == r.id) (at_call env r v).tables.refunds ≡ some r
    row_at_call = rw (during (set_refunds _ (env.between v))) claimed_row

    order_before : find (λ x. x.id == r.order_id) (env.between v).tables.orders ≡ some o
    order_before = rw (before v) (rw same order_row)

    abbrev claimed : World
    claimed =
        set_refunds
          (update_all ours (λ x. record x { status = RefundStatus.processing })
            (env.between v).tables.refunds)
          (env.between v)

    claims : claim_and_call cfg env actor r v ≡ call_provider cfg env actor r claimed
    unfolding claim_and_call Refund.can_transition
    claims =
        let count = length (select ours (env.between v).tables.refunds) in
        let go : Refund → Action Refund =
          λ current. if count == 0 then pure current else call_provider cfg env actor current in
        rw kept refl
        ∙ bind-at
            (or_raise
              (find (λ x. x.id == r.id)
                (update_all ours (λ x. record x { status = RefundStatus.processing })
                  (env.between v).tables.refunds))
              record_missing)
            go claimed {a = r} {v = claimed} (rw claimed_row refl)
        ∙ rw (select-find ours (λ x. x.id == r.id) (env.between v).tables.refunds r there is_ours)
            refl

    calls :
        call_provider cfg env actor r claimed
        ≡ (or_raise (env.provider r) provider_failed >>= handle_answer cfg actor r o)
            (at_call env r v)
    unfolding call_provider
    calls = rw order_before (rw kept_at_call refl)

    calls_provider :
        (claim_and_call cfg env actor r v).0
        ≡ ((or_raise (env.provider r) provider_failed >>= handle_answer cfg actor r o)
            (at_call env r v)).0
    calls_provider = ap (λ x. x.0) (claims ∙ calls)

    tried :
        r.ambiguous ≡ false
        → (execute_in_try cfg env r.id actor v).0 ≡ (claim_and_call cfg env actor r v).0
    unfolding execute_in_try
    tried unmarked =
        let here : find (λ x. x.id == r.id) v.tables.refunds ≡ some r = rw same row in
        rw here (rw unmarked refl)

-- An execution that gets past its lock returns what its `try` block returns.
past_lock :
    (cfg : Config) (env : Surroundings) (k : ℕ) (actor : Actor) (w : World)
    → (is_unreachable env.lock && cfg.locks_required) ≡ false
    → (v : World) × (v.tables ≡ w.tables)
      × ((execute_refund cfg env k actor w).0 ≡ (execute_in_try cfg env k actor v).0)
unfolding execute_refund take_lock finally_release audit_log
past_lock cfg env k actor w free = past env.lock free
  where
    past :
        (lock : LockAnswer)
        → (is_unreachable lock && cfg.locks_required) ≡ false
        → (v : World) × (v.tables ≡ w.tables)
          × (((take_lock cfg lock >> finally_release lock (execute_in_try cfg env k actor)) w).0
              ≡ (execute_in_try cfg env k actor v).0)
    past (LockAnswer.acquired b) free = ((take_lock cfg (LockAnswer.acquired b) w).1, refl, refl)
    past LockAnswer.taken free = (w, refl, refl)
    past LockAnswer.unreachable free = (w, refl, rw free refl)

-- The execution of a PROCESSING, unmarked refund that gets past its lock and does not lose it asks the
-- provider.
asked_again :
    (cfg : Config) (again : Actor) (env : Surroundings) (r : Refund) (o : Order) (w : World)
    → find (λ x. x.id == r.id) w.tables.refunds ≡ some r
    → find (λ x. x.id == r.order_id) w.tables.orders ≡ some o
    → r.status ≡ RefundStatus.processing
    → r.ambiguous ≡ false
    → (is_unreachable env.lock && cfg.locks_required) ≡ false
    → (is_acquired env.lock && env.lost_before) ≡ false
    → (is_acquired env.lock && env.lost_at_call) ≡ false
    → ((v : World) → (env.between v).tables ≡ v.tables)
    → ((v : World) → (env.during v).tables ≡ v.tables)
    → (v : World) × (find (λ x. x.id == r.id) v.tables.refunds ≡ some r)
      × ((execute_refund cfg env r.id again w).0
          ≡ ((or_raise (env.provider r) provider_failed >>= handle_answer cfg again r o) v).0)
asked_again cfg again env r o w row order_row processing unmarked free kept kept_at_call before
      during =
    let same_refund : record r { status = RefundStatus.processing } ≡ r =
      ap (λ s. record r { status = s }) (sym processing) in
    let row0 =
      subst (λ x. find (λ y. y.id == r.id) w.tables.refunds ≡ some x) (sym same_refund) row in
    let (v, same, past) = past_lock cfg env r.id again w free in
    let called =
      calls_provider cfg env again r o w before during kept kept_at_call v same row0 order_row in
    let try_block =
      tried cfg env again r o w before during kept kept_at_call v same row0 order_row unmarked in
    let there =
      row_at_call cfg env again r o w before during kept kept_at_call v same row0 order_row in
    let v' = at_call env (record r { status = RefundStatus.processing }) v in
    (
      v',
      there ∙ ap some same_refund,
      subst
          (λ x.
            (execute_refund cfg env r.id again w).0
            ≡ ((or_raise (env.provider x) provider_failed >>= handle_answer cfg again x o) v').0)
          same_refund (past ∙ try_block ∙ called),
    )

-- The provider refuses a refund of an order that is REFUNDED already, through an earlier partial
-- refund: the refusal cannot be recorded, since `executeRefund` throws and restores the tables. When
-- the refund's row is PROCESSING and not marked, the next execution asks the provider again: if it gets
-- past its lock, which it does not lose, and other processes leave the tables alone meanwhile, it
-- returns or throws what the handling of the provider's next answer does, and throws that the provider
-- failed only if there is none, in a world where the refund's row is as before.
pub refusal_not_recorded :
    (cfg : Config) (actor again : Actor) (env : Surroundings) (r : Refund) (o : Order)
    (answer : ProviderAnswer) (w : World)
    → answer.status ≡ RefundStatus.failed
    → o.status ≡ OrderStatus.refunded
    → find (λ x. x.id == r.id) w.tables.refunds ≡ some r
    → find (λ x. x.id == r.order_id) w.tables.orders ≡ some o
    → r.status ≡ RefundStatus.processing
    → r.ambiguous ≡ false
    → (is_unreachable env.lock && cfg.locks_required) ≡ false
    → (is_acquired env.lock && env.lost_before) ≡ false
    → (is_acquired env.lock && env.lost_at_call) ≡ false
    → ((v : World) → (env.between v).tables ≡ v.tables)
    → ((v : World) → (env.during v).tables ≡ v.tables)
    → (handle_answer cfg actor r o answer w ≡ (err invalid_order_transition, w))
      × (v : World) × (find (λ x. x.id == r.id) v.tables.refunds ≡ some r)
      × ((execute_refund cfg env r.id again w).0
          ≡ ((or_raise (env.provider r) provider_failed >>= handle_answer cfg again r o) v).0)
unfolding handle_answer
refusal_not_recorded cfg actor again env r o answer w refused refunded row order_row processing
      unmarked free kept kept_at_call before during =
    let (v, there, asked) =
      asked_again cfg again env r o w row order_row processing unmarked free kept kept_at_call
        before during in
    (rw refused (refusal_thrown actor r o answer w refunded row), v, there, asked)

-- `executeRefund` does not stop where another process holds the refund's lock: the execution of a
-- refund that is PROCESSING, as the other process has made it, and not marked asks the provider too,
-- also where locks are required. If other processes leave the tables alone meanwhile, it returns or
-- throws what the handling of the provider's answer does, and throws that the provider failed if there
-- is none, in a world where the refund's row is as before.
pub taken_lock_ignored :
    (cfg : Config) (actor : Actor) (env : Surroundings) (r : Refund) (o : Order) (w : World)
    → env.lock ≡ LockAnswer.taken
    → find (λ x. x.id == r.id) w.tables.refunds ≡ some r
    → find (λ x. x.id == r.order_id) w.tables.orders ≡ some o
    → r.status ≡ RefundStatus.processing
    → r.ambiguous ≡ false
    → ((v : World) → (env.between v).tables ≡ v.tables)
    → ((v : World) → (env.during v).tables ≡ v.tables)
    → (v : World) × (find (λ x. x.id == r.id) v.tables.refunds ≡ some r)
      × ((execute_refund cfg env r.id actor w).0
          ≡ ((or_raise (env.provider r) provider_failed >>= handle_answer cfg actor r o) v).0)
taken_lock_ignored cfg actor env r o w taken row order_row processing unmarked before during =
    asked_again cfg actor env r o w row order_row processing unmarked
      (ap (λ l. is_unreachable l && cfg.locks_required) taken)
      (ap (λ l. is_acquired l && env.lost_before) taken)
      (ap (λ l. is_acquired l && env.lost_at_call) taken) before during
