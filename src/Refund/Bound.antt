-- ===== src/Refund/Bound.antt =====
-- What a refund's creation demands and leaves behind.
use Prim.Native.Nat.{◌^◌}
use luminarail_backend.Base.{
  zero, suc, ◌*◌, ◌≤◌, ℕ, ◌≡◌, refl, Bool, true, false, ◌||◌, Option, none, some, List, [], ◌∷◌,
  ◌++◌, find, select, ◌==◌, ◌===◌, includes, arith, Option-cases, inl, inr, or_else, sym, ap, ◌∙◌,
  subst,
}
use luminarail_backend.Int.{ℤ, pos, ◌+ℤ◌, ◌-ℤ◌, ◌≤ℤ◌, surplus, lte, +ℤ_lem, -ℤ_lem}
use luminarail_backend.Store.Status.{
  OrderStatus, order_status_enum, RefundStatus, refund_status_enum,
}
use luminarail_backend.Store.Rows.{World, Order, Payment, Refund, Settlement}
use luminarail_backend.Store.Action.{ok, Result-cases, transaction-ok}
use luminarail_backend.Refund.Create.{
  RequestedAmount, RefundInput, rounded, checked_amount, requested_amount, CreatedRefund,
  first_choice, allowed_user_states, is_active_settlement, counts, locate_payment, sum_amounts,
  total_refunded, refundable, insert_new, insert_unless_known, order_refusal, create_refund_in_tx,
  create_refund,
}

-- Adding up the refunds of a longer table.
pub sum_amounts-append :
    (p : Refund → Bool) (s : ℤ) (rs : List Refund) (r : Refund)
    → p r ≡ true
    → sum_amounts s (select p (rs ++ r ∷ [])) ≡ sum_amounts s (select p rs) +ℤ r.amount
unfolding sum_amounts
sum_amounts-append p s [] r hit = ground arith
sum_amounts-append p s (x ∷ rs) r hit =
    let here = sum_amounts-append p (s +ℤ x.amount) rs r hit in
    let there = sum_amounts-append p s rs r hit in ground arith

-- Rounding does not go beyond a whole number of units.
rounded_le : (x n parts : ℕ) → 1 ≤ parts → x ≤ n * parts → rounded x parts ≤ n
unfolding rounded
rounded_le x n parts large most = grind arith

parts_large : (places : ℕ) → 1 ≤ 10 ^ places
parts_large zero = omega arith
parts_large (suc places) = grind (arith, parts_large places)

checked_lem :
    (remaining x : ℤ) (parts : ℕ) (a : ℤ)
    → 1 ≤ parts
    → checked_amount remaining x parts ≡ ok a
    → (pos 0 ≤ℤ a) × (a ≤ℤ pos (surplus remaining))
unfolding checked_amount
checked_lem remaining x parts a large done =
    let most : surplus x ≤ surplus remaining * parts = ground arith in
    let least = rounded_le (surplus x) (surplus remaining) parts large most in ground arith

requested_lem :
    (remaining : ℤ) (requested : Option RequestedAmount) (a : ℤ)
    → requested_amount remaining requested ≡ ok a
    → (pos 0 ≤ℤ a) × (a ≤ℤ pos (surplus remaining))
requested_lem remaining none a done = checked_lem remaining remaining 1 a (omega arith) done
requested_lem remaining (some (RequestedAmount.decimal x places)) a done =
    checked_lem remaining x (10 ^ places) a (parts_large places) done
requested_lem remaining (some RequestedAmount.infinite) a done = absurd (cc)
requested_lem remaining (some RequestedAmount.malformed) a done = absurd (cc)

pub refundable_lem :
    (captured already : ℤ) (requested : Option RequestedAmount) (a : ℤ)
    → refundable captured already requested ≡ ok a
    → (pos 0 ≤ℤ a) × (already +ℤ a ≤ℤ captured)
unfolding refundable
refundable_lem captured already requested a done =
    let left : lte (captured -ℤ already) (pos 0) ≡ false = ground arith in
    let amount : requested_amount (captured -ℤ already) requested ≡ ok a = rw left at done in
    let (least, most) = requested_lem (captured -ℤ already) requested a amount in
    (least, ground (arith, +ℤ_lem already a, -ℤ_lem captured already))

module _ (user_id : ℕ) (input : RefundInput) (key : ℕ) (o : Order) (p : Payment) (w : World)
    (c : CreatedRefund) (made : (insert_new user_id input key o p w).0 ≡ ok c) where
  amount_of : (a : ℤ) × (refundable p.amount (total_refunded o.id w) input.amount ≡ ok a)
  unfolding insert_new
  amount_of = elim (Result-cases (refundable p.amount (total_refunded o.id w) input.amount)) [
    | inl (e, failed) ↦ absurd (ground arith)
    | inr result ↦ result
  ]

  module _ (a : ℤ) (amount : refundable p.amount (total_refunded o.id w) input.amount ≡ ok a) where
    row_of :
        ((insert_new user_id input key o p w).1.tables.refunds ≡ w.tables.refunds ++ c.refund ∷ [])
        × (c.refund.order_id ≡ o.id)
        × (c.refund.status ≡ RefundStatus.pending)
        × (c.refund.amount ≡ a)
        × (c.is_duplicate ≡ false)
    unfolding insert_new
    row_of = ground arith

order_refusal_lem :
    (user_id : ℕ) (is_admin : Bool) (o : Order) (settlements : List Settlement)
    → order_refusal user_id is_admin o settlements ≡ none
    → (is_admin ≡ false → (o.user_id ≡ user_id) × (includes allowed_user_states o.status ≡ true))
      × ((o.status === OrderStatus.completed || o.status === OrderStatus.settlement_completed)
          ≡ false)
      × (find is_active_settlement settlements ≡ none)
unfolding order_refusal
order_refusal_lem user_id is_admin o settlements passed =
    (λ regular. (ground arith, ground arith), ground arith, ground arith)

-- The way of a request that passes every check.
module _ (key user_id : ℕ) (input : RefundInput) (is_admin : Bool) (header : Option ℕ) (w : World)
    (o : Order) (p : Payment) (found : find (λ x. x.id == input.order_id) w.tables.orders ≡ some o)
    (refusal : order_refusal user_id is_admin o
        (select (λ s. s.order_id == o.id) w.tables.settlements)
      ≡ none)
    (located : locate_payment input.payment_id (select (λ x. x.order_id == o.id) w.tables.payments)
      ≡ some p)
    (none_yet : find
        (λ r. r.idempotency_key == or_else (first_choice input.idempotency_key header) key)
        w.tables.refunds
      ≡ none) where
  pub reaches :
      create_refund_in_tx key user_id input is_admin header w
      ≡ insert_new user_id input (or_else (first_choice input.idempotency_key header) key) o p w
  unfolding create_refund_in_tx insert_unless_known
  reaches = rw found (rw refusal (rw located (rw none_yet refl)))

module _ (key user_id : ℕ) (input : RefundInput) (is_admin : Bool) (header : Option ℕ) (w : World)
    (c : CreatedRefund) (made : (create_refund_in_tx key user_id input is_admin header w).0 ≡ ok c)
    (new : c.is_duplicate ≡ false) where
  order_of : (o : Order) × (find (λ x. x.id == input.order_id) w.tables.orders ≡ some o)
  unfolding create_refund_in_tx
  order_of = elim (Option-cases (find (λ x. x.id == input.order_id) w.tables.orders)) [
    | inl missing ↦ absurd (ground arith)
    | inr found ↦ found
  ]

  module _ (o : Order) (found : find (λ x. x.id == input.order_id) w.tables.orders ≡ some o) where
    passed :
        order_refusal user_id is_admin o (select (λ s. s.order_id == o.id) w.tables.settlements)
        ≡ none
    unfolding create_refund_in_tx
    passed = ground arith

    payment_of :
        (p : Payment) × (locate_payment input.payment_id
            (select (λ x. x.order_id == o.id) w.tables.payments)
          ≡ some p)
    unfolding create_refund_in_tx
    payment_of =
        elim (Option-cases
          (locate_payment input.payment_id (select (λ x. x.order_id == o.id) w.tables.payments))) [
            | inl missing ↦ absurd (ground arith)
            | inr there ↦ there
          ]

    module _ (p : Payment)
        (located : locate_payment input.payment_id
            (select (λ x. x.order_id == o.id) w.tables.payments)
          ≡ some p)
        (refusal : order_refusal user_id is_admin o
            (select (λ s. s.order_id == o.id) w.tables.settlements)
          ≡ none) where
      reached :
          create_refund_in_tx key user_id input is_admin header w
          ≡ insert_new user_id input (or_else (first_choice input.idempotency_key header) key) o p w
      unfolding create_refund_in_tx insert_unless_known
      reached =
          elim (Option-cases (
            find (λ r. r.idempotency_key == or_else (first_choice input.idempotency_key header) key)
              w.tables.refunds)) [
                | inl none_yet ↦
                    reaches key user_id input is_admin header w o p found refusal located none_yet
                | inr (r, known) ↦ absurd (ground arith)
              ]

new_counts :
    (order_id : ℕ) (r : Refund)
    → r.order_id ≡ order_id
    → r.status ≡ RefundStatus.pending
    → counts order_id r ≡ true
new_counts order_id r for_order pending = ground arith

-- What holds when the refund `r` of the order `o` and its payment `p` has led from `w` to `after`.
pub record IsCovered (user_id : ℕ) (input : RefundInput) (is_admin : Bool) (w after : World)
    (o : Order) (p : Payment) (r : Refund) : Type 0 where
  pub order_read : find (λ x. x.id == input.order_id) w.tables.orders ≡ some o
  pub payment_read :
      locate_payment input.payment_id (select (λ x. x.order_id == o.id) w.tables.payments) ≡ some p
  pub user_allowed :
      is_admin ≡ false → (o.user_id ≡ user_id) × (includes allowed_user_states o.status ≡ true)
  pub not_settled :
      (o.status === OrderStatus.completed || o.status === OrderStatus.settlement_completed) ≡ false
  pub no_settlement :
      find is_active_settlement (select (λ s. s.order_id == o.id) w.tables.settlements) ≡ none
  pub amount_asked : refundable p.amount (total_refunded o.id w) input.amount ≡ ok r.amount
  pub amount_least : pos 0 ≤ℤ r.amount
  pub total_grows : total_refunded o.id after ≡ total_refunded o.id w +ℤ r.amount
  pub total_covered : total_refunded o.id after ≤ℤ p.amount

module _ (user_id : ℕ) (input : RefundInput) (key : ℕ) (o : Order) (p : Payment) (w : World)
    (c : CreatedRefund) (made : (insert_new user_id input key o p w).0 ≡ ok c) where
  totals :
      (refundable p.amount (total_refunded o.id w) input.amount ≡ ok c.refund.amount)
      × (pos 0 ≤ℤ c.refund.amount)
      × (total_refunded o.id (insert_new user_id input key o p w).1
          ≡ total_refunded o.id w +ℤ c.refund.amount)
      × (total_refunded o.id (insert_new user_id input key o p w).1 ≤ℤ p.amount)
  totals =
      let (a, amount) = amount_of user_id input key o p w c made in
      let (rows, for_order, pending, same, new) = row_of user_id input key o p w c made a amount in
      let (least, most) = refundable_lem p.amount (total_refunded o.id w) input.amount a amount in
      let hit = new_counts o.id c.refund for_order pending in
      let grows : total_refunded o.id (insert_new user_id input key o p w).1
          ≡ total_refunded o.id w +ℤ c.refund.amount =
        rw rows (sum_amounts-append (counts o.id) (pos 0) w.tables.refunds c.refund hit) in
      (rw same amount, rw same least, grows, rw grows (rw same most))

-- A new refund is made only for an order that is not settled and has no settlement that is under way,
-- to be reconciled or completed; a user who is no administrator must own the order, and it must
-- be FAILED, EXPIRED, CANCELLED, REFUND_FAILED or REFUND_PENDING. The refund's amount is what
-- the request asks for, or all that is left, rounded to the column's unit of 10^-4, and not negative.
-- The sum of the order's PENDING, PROCESSING and SUCCEEDED refunds grows by exactly its amount, and that sum is
-- at most the amount of the payment that the request or the code chooses.
pub create_refund-IsCovered :
    (key user_id : ℕ) (input : RefundInput) (is_admin : Bool) (header : Option ℕ) (w : World)
    (c : CreatedRefund)
    → (create_refund key user_id input is_admin header w).0 ≡ ok c
    → c.is_duplicate ≡ false
    → (o : Order) × (p : Payment) × IsCovered user_id input is_admin w
        (create_refund key user_id input is_admin header w).1
        o
        p
        c.refund
unfolding create_refund
create_refund-IsCovered key user_id input is_admin header w c made new =
    let commits = transaction-ok (create_refund_in_tx key user_id input is_admin header) w c made in
    let made_in_tx : (create_refund_in_tx key user_id input is_admin header w).0 ≡ ok c =
      ap (λ r. r.0) (sym commits) ∙ made in
    let (o, found) = order_of key user_id input is_admin header w c made_in_tx new in
    let refusal = passed key user_id input is_admin header w c made_in_tx new o found in
    let (p, located) = payment_of key user_id input is_admin header w c made_in_tx new o found in
    let there =
      reached key user_id input is_admin header w c made_in_tx new o found p located refusal in
    let whole = commits ∙ there in
    let effective = or_else (first_choice input.idempotency_key header) key in
    let (asked, least, grows, covered) =
      totals user_id input effective o p w c (ap (λ r. r.0) (sym there) ∙ made_in_tx) in
    let (allowed, unsettled, unpaid) =
      order_refusal_lem user_id is_admin o (select (λ s. s.order_id == o.id) w.tables.settlements)
        refusal in
    (
      o,
      p,
      record {
        order_read = found;
        payment_read = located;
        user_allowed = allowed;
        not_settled = unsettled;
        no_settlement = unpaid;
        amount_asked = asked;
        amount_least = least;
        total_grows = ap (λ r. total_refunded o.id r.1) whole ∙ grows;
        total_covered = subst (λ r. total_refunded o.id r.1 ≤ℤ p.amount) (sym whole) covered;
      },
    )
