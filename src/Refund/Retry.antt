-- ===== src/Refund/Retry.antt =====
-- Executing a refund again after its answer has been recorded.
use luminarail_backend.Base.{
  if◌then◌else◌, ◌&&◌, false, ℕ, ◌≡◌, refl, true, some, find, ◌==◌, ◌===◌, arith, Option-cases,
  Bool-cases, inl, inr, sym, ap, ◌∙◌, subst, ◌⊎◌, update, find-update_same, or_else,
}
use luminarail_backend.Store.Status.{RefundStatus, refund_status_enum}
use luminarail_backend.Store.Rows.{World, Order, Refund, Actor}
use luminarail_backend.Store.Config.{Config}
use luminarail_backend.Lock.Guard.{
  LockAnswer, is_unreachable, take_lock, give_back, finally_release,
}
use luminarail_backend.Store.Action.{
  Action, Result, lock_unavailable, ok, err, audit_log, ◌>>◌, Result-cases, transaction-ok,
  transaction-commits,
}
use luminarail_backend.Machine.Refund
use luminarail_backend.Refund.Execute.{
  ProviderAnswer, Surroundings, fail_in_tx, fail, hold_ambiguous, handle_answer, execute_in_try,
  execute_refund, ambiguous_text, rejected_text,
}

-- What an execution makes of its lock and of a `try` block that returns `r` and writes nothing.
abbrev pub Returns : Config → LockAnswer → Refund → World → Result Refund × World → Type 0
Returns cfg lock r w end =
    (end.0 ≡ (if is_unreachable lock && cfg.locks_required then err lock_unavailable else ok r))
    × (record (end.1) { audit = w.audit } ≡ w)

locked_read :
    (cfg : Config) (lock : LockAnswer) (m : Action Refund) (r : Refund) (w : World)
    → ((v : World) → v.tables ≡ w.tables → m v ≡ (ok r, v))
    → Returns cfg lock r w ((take_lock cfg lock >> finally_release lock m) w)
unfolding take_lock finally_release give_back audit_log
locked_read cfg (LockAnswer.acquired true) m r w reads =
    rw (reads (take_lock cfg (LockAnswer.acquired true) w).1 refl) (refl, refl)
locked_read cfg (LockAnswer.acquired false) m r w reads =
    rw (reads (take_lock cfg (LockAnswer.acquired false) w).1 refl) (refl, refl)
locked_read cfg LockAnswer.taken m r w reads = rw (reads w refl) (refl, refl)
locked_read cfg LockAnswer.unreachable m r w reads = elim (Bool-cases cfg.locks_required) [
  | inl required ↦ rw required (refl, refl)
  | inr optional ↦ rw optional (rw (reads w refl) (refl, refl))
]

-- A refund whose row is terminal, or PROCESSING with an unclear answer, is returned as it is.
read_in_try :
    (cfg : Config) (env : Surroundings) (k : ℕ) (actor : Actor) (w : World) (r : Refund)
    → find (λ x. x.id == k) w.tables.refunds ≡ some r
    → (Refund.is_terminal r.status ≡ true)
      ⊎ (r.status ≡ RefundStatus.processing) × (r.ambiguous ≡ true)
    → execute_in_try cfg env k actor w ≡ (ok r, w)
unfolding execute_in_try
read_in_try cfg env k actor w r found (inl final) = rw found (rw final refl)
read_in_try cfg env k actor w r found (inr (processing, held)) =
    rw found (rw processing (rw held refl))

pub settled_or_held :
    (cfg : Config) (env : Surroundings) (k : ℕ) (actor : Actor) (w : World) (r : Refund)
    → find (λ x. x.id == k) w.tables.refunds ≡ some r
    → (Refund.is_terminal r.status ≡ true)
      ⊎ (r.status ≡ RefundStatus.processing) × (r.ambiguous ≡ true)
    → Returns cfg env.lock r w (execute_refund cfg env k actor w)
unfolding execute_refund
settled_or_held cfg env k actor w r found rests =
    locked_read cfg env.lock (execute_in_try cfg env k actor) r w
      (λ v same. read_in_try cfg env k actor v r (rw same found) rests)

-- The row of a refund after an update by its id.
updated_row :
    (k : ℕ) (f : Refund → Refund) (w : World) (x : Refund)
    → find (λ y. y.id == k) w.tables.refunds ≡ some x
    → ((y : Refund) → (f y).id ≡ y.id)
    → find (λ y. y.id == k) (update (λ y. y.id == k) f w.tables.refunds) ≡ some (f x)
updated_row k f w x found keeps =
    find-update_same (λ y. y.id) k f w.tables.refunds x found (keeps x)

module _ (actor : Actor) (r final : Refund) (answer : ProviderAnswer) (w : World)
    (done : (hold_ambiguous actor r answer w).0 ≡ ok final) where
  held_row :
      (find (λ x. x.id == r.id) (hold_ambiguous actor r answer w).1.tables.refunds ≡ some final)
      × (final.status ≡ RefundStatus.processing)
      × (final.ambiguous ≡ true)
  unfolding hold_ambiguous audit_log
  held_row = elim (Option-cases (find (λ x. x.id == r.id) w.tables.refunds)) [
    | inl missing ↦ absurd (ground arith)
    | inr (x, there) ↦
        let row =
          updated_row r.id
            (λ r. record r {
              status = RefundStatus.processing;
              failure_reason = some (or_else answer.failure_reason ambiguous_text);
              ambiguous = true;
            })
            w x there (λ y. refl) in
        ground arith
  ]

module _ (actor : Actor) (r final : Refund) (o : Order) (answer : ProviderAnswer) (w : World) where
  failed_row_in_tx :
      (fail_in_tx r o answer w).0 ≡ ok final
      → (find (λ x. x.id == r.id) (fail_in_tx r o answer w).1.tables.refunds ≡ some final)
        × (final.status ≡ RefundStatus.failed)
  unfolding fail_in_tx
  failed_row_in_tx done = elim (Option-cases (find (λ x. x.id == r.id) w.tables.refunds)) [
    | inl missing ↦ absurd (ground arith)
    | inr (x, there) ↦
        let row =
          updated_row r.id
            (λ r. record r {
              status = RefundStatus.failed;
              failure_reason = some (or_else answer.failure_reason rejected_text);
              ambiguous = false;
            })
            w x there (λ y. refl) in
        ground arith
  ]

  failed_in_tx : (fail actor r o answer w).0 ≡ ok final → (fail_in_tx r o answer w).0 ≡ ok final
  unfolding fail audit_log
  failed_in_tx done = elim (Result-cases (fail_in_tx r o answer w).0) [
    | inl (e, threw) ↦ absurd (ground arith)
    | inr (a, returned) ↦ ground arith
  ]

  failed_row :
      (fail actor r o answer w).0 ≡ ok final
      → (find (λ x. x.id == r.id) (fail actor r o answer w).1.tables.refunds ≡ some final)
        × (final.status ≡ RefundStatus.failed)
  unfolding fail audit_log
  failed_row done =
      let (row, failed) = failed_row_in_tx (failed_in_tx done) in
      let whole =
        transaction-ok (fail_in_tx r o answer) w final
          (transaction-commits (fail_in_tx r o answer) w final (failed_in_tx done)) in
      (ground arith, failed)

-- However the provider answers a refund, unless it succeeds: when the handling of the answer has
-- returned the refund, a later execution of the same refund, however its lock is answered for and
-- whatever the provider would say, changes nothing but the audit log and returns the refund again, or
-- throws that the lock is unavailable if Redis is unreachable and locks are required.
pub unsuccessful_not_resent :
    (cfg : Config) (actor again : Actor) (env : Surroundings) (r final : Refund) (o : Order)
    (answer : ProviderAnswer) (w : World)
    → answer.status === RefundStatus.succeeded ≡ false
    → (handle_answer cfg actor r o answer w).0 ≡ ok final
    → let after = (handle_answer cfg actor r o answer w).1 in
      let end = execute_refund cfg env r.id again after in
      (end.0 ≡ (
        if is_unreachable env.lock && cfg.locks_required then err lock_unavailable else ok final))
      × (record (end.1) { audit = after.audit } ≡ after)
unfolding handle_answer
unsuccessful_not_resent cfg actor again env r final o answer w other done =
    elim (Bool-cases (answer.status === RefundStatus.failed)) [
      | inl failed ↦
          let same : handle_answer cfg actor r o answer w ≡ fail actor r o answer w =
            rw other (rw failed refl) in
          let (row, closed) =
            failed_row actor r final o answer w (ap (λ x. x.0) (sym same) ∙ done) in
          subst (λ x. Returns cfg env.lock final x.1 (execute_refund cfg env r.id again x.1))
            (sym same)
            (settled_or_held cfg env r.id again (fail actor r o answer w).1 final row
              (inl (rw closed refl)))
      | inr unclear ↦
          let same : handle_answer cfg actor r o answer w ≡ hold_ambiguous actor r answer w =
            rw other (rw unclear refl) in
          let (row, open_still, held) =
            held_row actor r final answer w (ap (λ x. x.0) (sym same) ∙ done) in
          subst (λ x. Returns cfg env.lock final x.1 (execute_refund cfg env r.id again x.1))
            (sym same)
            (settled_or_held cfg env r.id again (hold_ambiguous actor r answer w).1 final row
              (inr (open_still, held)))
    ]
