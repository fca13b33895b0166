-- ===== src/Workers/Settle/Once.antt =====
-- The settlement worker submits nothing for a settlement that has a hash.
use luminarail_backend.Base.{ℕ, Bool, ◌≡◌, refl, ap, sym, ◌∙◌, Option, some, find, ◌==◌}
use luminarail_backend.Store.Rows.{World, Settlement}
use luminarail_backend.Store.Status.{SettlementStatus}
use luminarail_backend.Store.Config.{Config}
use luminarail_backend.Store.Action.{Result, ◌>>=◌}
use luminarail_backend.Workers.Settle.Flow.{
  Submission, Executor, submit_once, after_submission, confirm_hash, run_fresh,
  execute_settlement_flow,
}

sent_already :
    (executor : Executor) (send : Settlement → Submission) (cfg : Config) (now : ℕ) (owned : Bool)
    (s : Settlement) (hash : ℕ)
    → (submit_once executor now owned s (some hash) >>= after_submission executor cfg now) ≡ (
        submit_once (record executor { submit_settlement = send }) now owned s (some hash)
        >>= after_submission (record executor { submit_settlement = send }) cfg now)
unfolding submit_once after_submission confirm_hash
sent_already executor send cfg now owned s hash = refl

pub run_found :
    (executor : Executor) (cfg : Config) (now : ℕ) (owned : Bool) (settlement s : Settlement)
    (w : World)
    → find (λ x. x.id == settlement.id) w.tables.settlements ≡ some s
    → execute_settlement_flow executor cfg now owned settlement w
      ≡ (submit_once executor now owned s s.stellar_transaction_hash
            >>= after_submission executor cfg now)
          w
unfolding execute_settlement_flow run_fresh
run_found executor cfg now owned settlement s w found = rw (◌>>=◌, found) refl

-- Once the row of a settlement has a transaction hash, the flow does not depend on what a submission
-- would give: it goes on from the hash and submits nothing.
pub no_resubmission :
    (executor : Executor) (send : Settlement → Submission) (cfg : Config) (now : ℕ) (owned : Bool)
    (settlement s : Settlement) (hash : ℕ) (w : World)
    → find (λ x. x.id == settlement.id) w.tables.settlements ≡ some s
    → s.stellar_transaction_hash ≡ some hash
    → execute_settlement_flow executor cfg now owned settlement w
      ≡ execute_settlement_flow
          (record executor { submit_settlement = send })
          cfg
          now
          owned
          settlement
          w
no_resubmission executor send cfg now owned settlement s hash w found e =
    let other : Executor = record executor { submit_settlement = send } in
    let run : Executor → Option ℕ → Result SettlementStatus × World =
      λ x h. (submit_once x now owned s h >>= after_submission x cfg now) w in
    run_found executor cfg now owned settlement s w found
    ∙ ap (run executor) e
    ∙ ap (λ m. m w) (sent_already executor send cfg now owned s hash)
    ∙ sym (ap (run other) e)
    ∙ sym (run_found other cfg now owned settlement s w found)
