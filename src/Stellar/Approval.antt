-- ===== src/Stellar/Approval.antt =====
-- What the approval of a settlement's transaction guarantees.
use luminarail_backend.Base.{
  ℕ, ◌≡◌, refl, sym, subst, not, ◌&&◌, ◌||◌, Option, find, any, ◌==◌, ◌===◌, is_some,
}
use luminarail_backend.Store.Status.{
  OrderStatus, order_status_enum, PaymentStatus, payment_status_enum, reservation_status_enum,
  SettlementStatus, settlement_status_enum, text_eq,
}
use luminarail_backend.Store.Rows.{World, Order, Settlement}
use luminarail_backend.Store.Config.{Config}
use luminarail_backend.Store.Action.{ok, audit_log}
use luminarail_backend.Settlement.Service.{is_active_refund}
use luminarail_backend.Stellar.Encode.{parse_settlement_id, parse_amount}
use luminarail_backend.Stellar.Check.{
  Check, passed, rejected, broken, >>=-passed, reject_if-passed, or_reject-passed, or_break-passed,
}
use luminarail_backend.Stellar.Policy.{
  ParsedTransaction, PolicyContext, Network, SettlementCall, single, invocation, five, read_number,
  is_number, check_transaction, valid_wallet, is_confirmed, check_order, check_limits, decide,
  approved_function, or_text, is_empty, differs,
}
use luminarail_backend.Stellar.Engine.{announce, validate_and_approve}
use luminarail_backend.Stellar.Authorized.{
  IsExpectedCall, IsPayable, not-false, or_not-false, passed_lem, cc_id, cc_ops, read_number_lem,
  single_lem, invocation_lem, check_limits_lem,
}

check_transaction_lem :
    (cfg : Config) (net : Network) (context : PolicyContext) (parsed : Option ParsedTransaction)
    {call : SettlementCall}
    → check_transaction cfg net context parsed ≡ passed call
    → IsExpectedCall cfg net context parsed call
unfolding check_transaction
check_transaction_lem cfg net context parsed {call} h =
    let (running, h1) = reject_if-passed cfg.emergency_global_pause _ _ h in
    let (tx, read, h2) = or_reject-passed parsed _ _ h1 in
    let (same_net, h3) = reject_if-passed (not (tx.network_passphrase == net.passphrase)) _ _ h2 in
    let (op, one, h4) = >>=-passed (single tx.operations) _ h3 in
    let (i, invoked, h5) = >>=-passed (invocation op) _ h4 in
    let (vault, h6) =
      reject_if-passed
        (is_empty (or_text context.expected_vault_contract net.vault_contract)
          || not (text_eq i.contract (or_text context.expected_vault_contract net.vault_contract)))
        _ _ h5 in
    let (named, h7) = reject_if-passed (not (text_eq i.function_name approved_function)) _ _ h6 in
    let (args, split, h8) = >>=-passed (five i.arguments) _ h7 in
    let (id, numbered, h9) = >>=-passed (read_number args.id) _ h8 in
    let (same_id, h10) =
      reject_if-passed (not (is_number id (parse_settlement_id context.settlement_id))) _ _ h9 in
    let (from, h11) =
      reject_if-passed (differs (or_text context.expected_source net.signer_key) args.source) _ _
        h10 in
    let (of, h12) =
      reject_if-passed
        (differs (or_text context.expected_asset_contract net.usdc_contract) args.asset) _ _ h11 in
    let stated : args ≡ call = passed_lem h12 in
    record {
      not_paused = running;
      id_matches = (id, cc_id stated (read_number_lem args.id numbered), not-false _ same_id);
      source_matches = cc;
      asset_matches = cc;
      one_call = (
        tx,
        i,
        read,
        not-false _ same_net,
        cc_ops (single_lem tx.operations one) (invocation_lem op invoked),
        or_not-false _ _ vault,
        not-false _ named,
        cc,
      );
    }

check_order_lem :
    (cfg : Config) (net : Network) (now : ℕ) (context : PolicyContext) (call : SettlementCall)
    (w : World) {o : Order} {s : Settlement}
    → check_order net context call w ≡ passed (o, s)
    → check_limits cfg now o s w ≡ passed tt
    → IsPayable cfg net now context call w o s
unfolding check_order
check_order_lem cfg net now context call w {o} {s} h limits =
    let (order, found, h1) =
      or_reject-passed (find (λ x. x.id == context.order_id) w.tables.orders) _ _ h in
    let (pending, h2) =
      reject_if-passed (not (order.status === OrderStatus.settlement_pending)) _ _ h1 in
    let (unrefunded, h3) =
      reject_if-passed (is_some (find (is_active_refund context.order_id) w.tables.refunds)) _ _
        h2 in
    let (wallet, valid, h4) =
      >>=-passed (valid_wallet net.is_valid_key order.wallet_address) _ h3 in
    let (to, h5) = reject_if-passed (not (text_eq call.destination wallet)) _ _ h4 in
    let (n, shown, h6) =
      or_break-passed (parse_amount (net.show_amount order.destination_amount)) _ h5 in
    let (amount, numbered, h7) = >>=-passed (read_number call.amount) _ h6 in
    let (exact, h8) = reject_if-passed (not (is_number amount n)) _ _ h7 in
    let (succeeded, h9) =
      reject_if-passed
        (not (
          any (λ p. p.order_id == order.id && p.status === PaymentStatus.succeeded)
            w.tables.payments))
        _ _ h8 in
    let (confirmed, h10) =
      reject_if-passed
        (not (is_confirmed (find (λ r. r.order_id == order.id) w.tables.reservations))) _ _ h9 in
    let (settlement, read, h11) =
      or_reject-passed (find (λ x. x.order_id == context.order_id) w.tables.settlements) _ _ h10 in
    let (uncompleted, h12) =
      reject_if-passed (settlement.status === SettlementStatus.completed) _ _ h11 in
    let both = passed_lem h12 in
    let before = subst (λ p. check_limits cfg now p.0 p.1 w ≡ passed tt) (sym both) limits in
    let (fresh, least, most, hourly, daily) = check_limits_lem cfg now order settlement w before in
    subst (λ p. IsPayable cfg net now context call w p.0 p.1) both
      (record {
        order_read = found;
        order_pending = not-false _ pending;
        no_refund = unrefunded;
        to_wallet = (wallet, valid, not-false _ to);
        exact_amount = (n, amount, shown, read_number_lem call.amount numbered, not-false _ exact);
        paid = not-false _ succeeded;
        reserved = not-false _ confirmed;
        settlement_read = read;
        not_completed = uncompleted;
        fresh_enough = fresh;
        at_least = least;
        at_most = most;
        within_hour = hourly;
        within_day = daily;
      })

decide_lem :
    (cfg : Config) (net : Network) (now : ℕ) (context : PolicyContext)
    (parsed : Option ParsedTransaction) (w : World) {s : Settlement}
    → decide cfg net now context parsed w ≡ passed s
    → (call : SettlementCall) × (o : Order) × IsExpectedCall cfg net context parsed call
      × IsPayable cfg net now context call w o s
unfolding decide
decide_lem cfg net now context parsed w {s} h =
    let (call, called, h1) = >>=-passed (check_transaction cfg net context parsed) _ h in
    let (found, read, h2) = >>=-passed (check_order net context call w) _ h1 in
    let (u, limits, h3) = >>=-passed (check_limits cfg now found.0 found.1 w) _ h2 in
    let same : found.1 ≡ s = passed_lem h3 in
    let payable = check_order_lem cfg net now context call w read limits in
    (
      call,
      found.0,
      check_transaction_lem cfg net context parsed called,
      subst (IsPayable cfg net now context call w found.0) same payable,
    )

announce_lem :
    (context : PolicyContext) (c : Check Settlement) (w : World)
    → (announce context c w).0 ≡ ok tt
    → ((announce context c w).1.tables ≡ w.tables) × ((s : Settlement) × (c ≡ passed s))
unfolding announce audit_log
announce_lem context (passed s) w h = (refl, (s, refl))
announce_lem context (rejected v) w h = cc
announce_lem context broken w h = cc

-- When the engine approves a transaction, the pause is off, the transaction is one call of the
-- approved function of the vault with the settlement's id, source and asset, and the call is payable:
-- the order is pending and has no active refund, the destination is its wallet, the amount is its
-- amount in stroops, it has a succeeded payment and a confirmed reservation, its settlement is not
-- completed and a day old at most, and the limits hold. The tables are as they were.
pub approval-IsAuthorized :
    (cfg : Config) (net : Network) (now : ℕ) (context : PolicyContext)
    (parsed : Option ParsedTransaction) (w : World)
    → (validate_and_approve cfg net now context parsed w).0 ≡ ok tt
    → ((validate_and_approve cfg net now context parsed w).1.tables ≡ w.tables)
      × ((call : SettlementCall) × (o : Order) × (s : Settlement) × IsExpectedCall cfg net context
            parsed call
          × IsPayable cfg net now context call w o s)
unfolding validate_and_approve
approval-IsAuthorized cfg net now context parsed w h =
    let (kept, (s, e)) = announce_lem context (decide cfg net now context parsed w) w h in
    let (call, o, called, payable) = decide_lem cfg net now context parsed w e in
    (kept, (call, o, s, called, payable))
