-- ===== src/Governance/Calls/Outcome.antt =====
-- The end of a proposal: its tally, its execution and its payment.
use abundance_protocol.Governance.Treasury.Ledger.{record_spend_guarded}
use abundance_protocol.Prelude.Int.{int_laws, ℤ, ◌+ℤ◌, ◌≤ℤ◌, pos, eqb_ℤ}
use abundance_protocol.Governance.Treasury.{debit, is_treasury_spend}
use abundance_protocol.Prelude.{
  ◌==◌, ◌++◌, [], ◌∷◌, false, refl, ℕ, ◌≡◌, true, false, some, inl, inr, arith, Option-cases,
}
use abundance_protocol.Dict.{lookup, lookup-insert_self}
use abundance_protocol.Result.{Result, ok, err}
use abundance_protocol.Governance.{
  TreasuryState, executed, Numbers, Engine, Proposal, ExecutionData, not_passed,
}
use abundance_protocol.Governance.Proposals.{tally_votes, execute_proposal, spend_of}
use abundance_protocol.Governance.Calls.Timelock.Steps.{execute_proposal-ok}

-- The configuration with another quorum and another threshold for critical proposals.
abbrev pub with_critical : {R : Type 0} → R → R → Engine R → Engine R
with_critical quorum critical s = record s {
  config = record s.config { quorum_percent = quorum; critical_threshold = critical };
}

abbrev pub reconfigured :
    {R E A : Type 0} → R → R → Result E (A × Engine R) → Result E (A × Engine R)
reconfigured quorum critical (ok (o, s)) = ok (o, with_critical quorum critical s)
reconfigured quorum critical (err e) = err e

-- Neither `quorumPercent` nor `criticalThreshold` has a say in a tally: with any other values of the
-- two, every call of tallyVotes throws the same error or reports the same outcome and leaves the same
-- proposals, be the proposal critical or not.
tally_votes_ignores_critical :
    {R : Type 0} (num : Numbers R) (quorum critical : R) (i now : ℕ) (s : Engine R)
    → tally_votes num i now (with_critical quorum critical s)
      ≡ reconfigured quorum critical (tally_votes num i now s)
unfolding tally_votes
tally_votes_ignores_critical num quorum critical i now s =
    elim (Option-cases (lookup i s.proposals)) [
      | inl missing ↦ ground (arith, missing)
      | inr (p, found) ↦ ground (arith, found)
    ]

-- A proposal that has been executed is not executed again: any later call throws.
pub execute_proposal_once :
    {R : Type 0} (i now later : ℕ) (s s' : Engine R)
    → execute_proposal i now s ≡ ok s'
    → execute_proposal i later s' ≡ err not_passed
unfolding execute_proposal
execute_proposal_once i now later s s' e =
    let (p, t, s₁, _, _, _, _, _, there) = execute_proposal-ok 0 i now s s' e in
    ground (
      arith,
      there,
      lookup-insert_self i (record p { status = executed; executed_at = some now }) s₁.proposals,
    )

balance-debit :
    (i : ℕ) (amount : ℤ) (recipient now : ℕ) (t : TreasuryState)
    → (debit i amount recipient now t).balance +ℤ amount ≡ t.balance
unfolding debit
balance-debit i amount recipient now t = omega int_laws

-- An execution of a treasury spend that returns has paid it: the amount was positive and within the
-- balance; the balance is less by it, and the treasury has one transaction more, the last, of that
-- amount, with the proposal's identifier and the recipient of its data, where amount and recipient are not
-- the falsy 0 and ''.
pub execute_proposal_pays :
    {R : Type 0} (i now : ℕ) (s s' : Engine R) {p : Proposal R} {x : ExecutionData}
    → lookup i s.proposals ≡ some p
    → p.execution_data ≡ some x
    → is_treasury_spend p.type ≡ true
    → eqb_ℤ x.amount (pos 0) ≡ false
    → (x.recipient == 0) ≡ false
    → execute_proposal i now s ≡ ok s'
    → (pos 1 ≤ℤ x.amount)
      × (x.amount ≤ℤ s.treasury.balance)
      × (s'.treasury.transactions
          ≡ s.treasury.transactions
            ++ (record {
              is_deposit = false;
              amount = x.amount;
              timestamp = now;
              source = 0;
              proposal_id = i;
              recipient = x.recipient;
            }
                ∷ []))
      × (s'.treasury.balance +ℤ x.amount ≡ s.treasury.balance)
unfolding spend_of debit
execute_proposal_pays i now s s' {p} {x} found payload spends paid named e =
    let (q, t, s₁, found', _, _, _, spent, there) = execute_proposal-ok 0 i now s s' e in
    let same : q ≡ p = ground (arith, found, found') in
    let spent' : spend_of i now p s ≡ ok s₁ = rw (← same) spent in
    let (lo, hi, debited, _) =
      record_spend_guarded i x.amount x.recipient now s s₁
        (ground (arith, payload, spends, paid, named)) in
    let paid_out : s'.treasury ≡ debit i x.amount x.recipient now s.treasury =
      ground (arith, there, debited) in
    (lo, hi, rw paid_out refl, rw paid_out (balance-debit i x.amount x.recipient now s.treasury))
