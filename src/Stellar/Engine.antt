-- ===== src/Stellar/Engine.antt =====
-- `validateAndApprove` of src/stellar/policy/settlement-policy.engine.ts as a service method, and
-- `signTransaction` of src/stellar/signer/kms-transaction.signer.ts as far as the policy goes.
use luminarail_backend.Base.{ℕ, Option, some, ⊤}
use luminarail_backend.Store.Rows.{Settlement, Actor, AuditAction}
use luminarail_backend.Store.Config.{Config}
use luminarail_backend.Store.Action.{
  Action, pure, raise, gets, or_raise, audit_log, ◌>>=◌, ◌>>◌, policy_violation, sdk_failed,
}
use luminarail_backend.Stellar.Check.{Check, passed, rejected, broken}
use luminarail_backend.Stellar.Policy.{Network, PolicyContext, ParsedTransaction, decide}

-- The log and the exception that follow from the decision.
unfoldable pub announce : PolicyContext → Check Settlement → Action ⊤
unfolding audit_log
announce context (passed settlement) =
    audit_log Actor.system AuditAction.settlement_policy_approved (some settlement.id)
announce context (rejected v) = do
  audit_log Actor.system AuditAction.settlement_policy_rejected (some context.settlement_key)
  raise (policy_violation v)
announce context broken = raise sdk_failed

unfoldable pub validate_and_approve :
    Config → Network → ℕ → PolicyContext → Option ParsedTransaction → Action ⊤
unfolding decide announce
validate_and_approve cfg net now context parsed =
    gets (decide cfg net now context parsed) >>= announce context

-- `signature` is what the key management service answers for the transaction's hash, once its length
-- and its validity have been checked, or none if one of these fails.
unfoldable pub sign_transaction :
    Config → Network → ℕ → PolicyContext → Option ParsedTransaction → Option ℕ → Action ℕ
unfolding validate_and_approve audit_log
sign_transaction cfg net now context parsed signature = do
  validate_and_approve cfg net now context parsed
  tx ← or_raise parsed sdk_failed
  signed ← or_raise signature sdk_failed
  audit_log Actor.system AuditAction.transaction_signed (some context.settlement_key)
  pure signed
