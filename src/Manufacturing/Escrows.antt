-- ===== src/Manufacturing/Escrows.antt =====
-- src/manufacturing/escrows.ts, class ManufacturingEscrow. Amounts are wei, which the contract's
-- interface types as uint256, so they are naturals; differences and percentages are integers.
-- What `Date.now()`, `Math.random()` and the simulated chain yield is an argument. Each method works
-- on the Map `pendingEscrows`; all but the first find their escrow in it (`at_key`).
pub mod Custody
pub mod Payouts
pub mod Overpayment
use abundance_protocol.Prelude.{
  ℕ, ◌+◌, ◌*◌, Bool, true, false, not, Option, none, some, List, ltb, leb, ◌==◌, ◌||◌,
  if◌then◌else◌, length, get_elem?, take, sum, select,
}
use abundance_protocol.Prelude.Int.{ℤ, pos, pos_part, ◌-ℤ◌, scale, quot, ltb_ℤ, eqb_ℤ}
use abundance_protocol.Dict.{Dict, lookup, insert, values}
use abundance_protocol.Result.{Result, ok, err, throw_if, or_throw, ◌>>=◌, ◌>>◌}
use abundance_protocol.Registry.{at_key}

pub data EscrowStatus : Type 0 where
  pending funded manufacturing milestone_1 milestone_2 complete disputed refunded cancelled :
      EscrowStatus

-- interface POEscrow
pub record PoEscrow : Type 0 where
  pub id : ℕ
  pub buyer : ℕ
  pub manufacturer : ℕ
  pub arbitrator : ℕ
  pub total_amount : ℕ
  pub milestone_amounts : List ℕ
  pub status : EscrowStatus
  pub product_specs : ℕ
  pub delivery_deadline : ℕ
  pub created_at : ℕ
  pub milestones_completed : ℕ

-- The messages of the errors that are thrown.
pub data EscrowError : Type 0 where
  sum_exceeds_total not_found invalid_index already_released previous_first : EscrowError
  already_disputed cannot_dispute not_disputed bad_percent already_refunded cannot_refund :
      EscrowError

-- milestoneAmounts.slice(0, milestonesCompleted).reduce((a, b) => a + b, 0n)
abbrev pub released : PoEscrow → ℕ
released escrow = sum (take escrow.milestones_completed escrow.milestone_amounts)

-- `account` is the wallet's address. Returns the identifier and the transaction's hash.
unfoldable pub create_escrow :
    ℕ
    → ℕ
    → ℕ
    → ℕ
    → List ℕ
    → ℕ
    → ℕ
    → ℕ
    → ℕ
    → ℕ
    → Dict PoEscrow
    → Result EscrowError (ℕ × ℕ) × Dict PoEscrow
create_escrow account buyer manufacturer total milestones specs deadline new_id tx_hash now m =
    if ltb total (sum milestones)
    then (err sum_exceeds_total, m)
    else (ok (new_id, tx_hash), insert new_id escrow m)
  where
    escrow : PoEscrow
    escrow = record {
      id = new_id;
      buyer = buyer;
      manufacturer = manufacturer;
      arbitrator = account;
      total_amount = total;
      milestone_amounts = milestones;
      status = funded;
      product_specs = specs;
      delivery_deadline = deadline;
      created_at = now;
      milestones_completed = 0;
    }

-- releaseMilestone up to its `await`: the guards, and the amount. An index is a natural number; negative ones
-- and fractions are refused by the code's comparisons, and NaN, which they let through, stays out.
unfoldable pub release_guards : ℕ → PoEscrow → Result EscrowError ℕ
release_guards index escrow = do
  throw_if (leb (length escrow.milestone_amounts) index) invalid_index
  throw_if (ltb index escrow.milestones_completed) already_released
  throw_if (ltb escrow.milestones_completed index) previous_first
  or_throw (get_elem? escrow.milestone_amounts index) invalid_index

-- the status after `completed` of `count` milestones
abbrev progress : ℕ → ℕ → EscrowStatus → EscrowStatus
progress completed count status =
    if completed == count
    then complete
    else if completed == 1
    then milestone_1
    else if completed == 2
    then milestone_2
    else status

-- releaseMilestone after its `await`: the escrow is changed.
unfoldable pub release_update : PoEscrow → PoEscrow
release_update escrow =
    let completed = escrow.milestones_completed + 1 in
    record escrow {
      milestones_completed = completed;
      status = progress completed (length escrow.milestone_amounts) escrow.status;
    }

-- The two parts as steps of their own, for calls that interleave at the `await`.
unfoldable pub begin_on : ℕ → PoEscrow → Result EscrowError (ℕ × PoEscrow)
begin_on index escrow = do amount ← release_guards index escrow; ok (amount, escrow)

unfoldable pub end_on : PoEscrow → Result EscrowError (Unit {0} × PoEscrow)
end_on escrow = ok (tt, release_update escrow)

unfoldable pub release_begin : ℕ → ℕ → Dict PoEscrow → Result EscrowError ℕ × Dict PoEscrow
release_begin escrow_id index = at_key not_found escrow_id (begin_on index)

unfoldable pub release_end : ℕ → Dict PoEscrow → Result EscrowError (Unit {0}) × Dict PoEscrow
release_end escrow_id = at_key not_found escrow_id end_on

-- A call that nothing interleaves with, on the escrow that it finds.
unfoldable pub release_on : ℕ → PoEscrow → Result EscrowError (ℕ × PoEscrow)
release_on index escrow = do
  amount ← release_guards index escrow
  ok (amount, release_update escrow)

unfoldable pub release_milestone : ℕ → ℕ → Dict PoEscrow → Result EscrowError ℕ × Dict PoEscrow
release_milestone escrow_id index = at_key not_found escrow_id (release_on index)

abbrev is_disputed : EscrowStatus → Bool
is_disputed disputed = true
is_disputed _ = false

abbrev is_complete : EscrowStatus → Bool
is_complete complete = true
is_complete _ = false

abbrev is_refunded : EscrowStatus → Bool
is_refunded refunded = true
is_refunded _ = false

unfoldable pub dispute_on : PoEscrow → Result EscrowError (Unit {0} × PoEscrow)
dispute_on escrow = do
  throw_if (is_disputed escrow.status) already_disputed
  throw_if (is_complete escrow.status || is_refunded escrow.status) cannot_dispute
  ok (tt, record escrow { status = disputed })

unfoldable pub raise_dispute : ℕ → Dict PoEscrow → Result EscrowError (Unit {0}) × Dict PoEscrow
raise_dispute escrow_id = at_key not_found escrow_id dispute_on

-- remainingAmount, in bigint arithmetic
abbrev pub remaining : PoEscrow → ℤ
remaining escrow = pos escrow.total_amount -ℤ pos (released escrow)

abbrev resolved : ℤ → EscrowStatus → EscrowStatus
resolved percent status =
    if eqb_ℤ percent (pos 100) then refunded else if eqb_ℤ percent (pos 0) then complete else status

-- Returns the buyer's amount and the manufacturer's. The percentage is an integer, since
-- `BigInt(buyerPercent)` throws on any other number.
unfoldable pub resolve_on : ℤ → PoEscrow → Result EscrowError ((ℤ × ℤ) × PoEscrow)
resolve_on percent escrow = do
  throw_if (not (is_disputed escrow.status)) not_disputed
  throw_if (ltb_ℤ percent (pos 0) || ltb_ℤ (pos 100) percent) bad_percent
  let buyer_amount = quot (scale (remaining escrow) (pos_part percent)) 100
  ok (
    (buyer_amount, remaining escrow -ℤ buyer_amount),
    record escrow { status = resolved percent escrow.status },
  )

unfoldable pub resolve_dispute : ℕ → ℤ → Dict PoEscrow → Result EscrowError (ℤ × ℤ) × Dict PoEscrow
resolve_dispute escrow_id percent = at_key not_found escrow_id (resolve_on percent)

unfoldable pub refund_on : PoEscrow → Result EscrowError (ℤ × PoEscrow)
refund_on escrow = do
  throw_if (is_refunded escrow.status) already_refunded
  throw_if (is_complete escrow.status) cannot_refund
  ok (remaining escrow, record escrow { status = refunded })

unfoldable pub refund_buyer : ℕ → Dict PoEscrow → Result EscrowError ℤ × Dict PoEscrow
refund_buyer escrow_id = at_key not_found escrow_id refund_on

unfoldable pub get_escrow : Dict PoEscrow → ℕ → Option PoEscrow
get_escrow m escrow_id = lookup escrow_id m

-- Addresses are numbers up to the case of their letters, so `toLowerCase` is the identity.
unfoldable pub list_escrows : Dict PoEscrow → ℕ → List PoEscrow
list_escrows m address =
    select (λ e. e.buyer == address || e.manufacturer == address || e.arbitrator == address)
      (values m)

-- Date.now() / 1000 > deliveryDeadline, with `now` in milliseconds
unfoldable pub is_overdue : Dict PoEscrow → ℕ → ℕ → Bool
is_overdue m escrow_id now = elim (lookup escrow_id m) [
  | none ↦ false
  | some escrow ↦ ltb (escrow.delivery_deadline * 1000) now
]

unfoldable pub get_released_amount : Dict PoEscrow → ℕ → ℕ
get_released_amount m escrow_id = elim (lookup escrow_id m) [
  | none ↦ 0
  | some escrow ↦ released escrow
]

unfoldable pub get_remaining_amount : Dict PoEscrow → ℕ → ℤ
unfolding get_released_amount
get_remaining_amount m escrow_id = elim (lookup escrow_id m) [
  | none ↦ pos 0
  | some escrow ↦ pos escrow.total_amount -ℤ pos (get_released_amount m escrow_id)
]
