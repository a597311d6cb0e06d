-- ===== src/Governance/Treasury.antt =====
-- The treasury (src/governance/engine.ts: recordDeposit, recordSpend, getTreasuryReport).
pub mod Ledger
use abundance_protocol.Prelude.{
  ℕ, ◌+◌, ◌*◌, Bool, true, false, Option, none, some, List, [], ◌∷◌, ◌++◌, leb, if◌then◌else◌,
}
use abundance_protocol.Prelude.Int.{ℤ, pos, ◌+ℤ◌, ◌-ℤ◌, ltb_ℤ, leb_ℤ}
use abundance_protocol.Dict.{Dict, lookup}
use abundance_protocol.Result.{Result, ok, err, throw_if, or_throw, ◌>>=◌, ◌>>◌}
use abundance_protocol.Governance.{
  TreasuryState, Transaction, Engine, Proposal, ProposalType, treasury_spend, GovernanceError,
  amount_not_positive, insufficient_balance, invalid_spend,
}

-- the changes of recordDeposit
unfoldable pub credit : ℤ → ℕ → ℕ → TreasuryState → TreasuryState
credit amount source now t = record {
  balance = t.balance +ℤ amount;
  transactions =
      t.transactions
      ++ record {
        is_deposit = true;
        amount = amount;
        timestamp = now;
        source = source;
        proposal_id = 0;
        recipient = 0;
      }
        ∷ [];
}

unfoldable pub record_deposit :
    {R : Type 0} → ℤ → ℕ → ℕ → Engine R → Result GovernanceError (Engine R)
record_deposit amount source now s = do
  throw_if (leb_ℤ amount (pos 0)) amount_not_positive
  ok (record s { treasury = credit amount source now s.treasury })

abbrev pub is_treasury_spend : ProposalType → Bool
is_treasury_spend treasury_spend = true
is_treasury_spend _ = false

-- !proposal || proposal.type !== 'treasury_spend'
abbrev not_spendable : {R : Type 0} → Option (Proposal R) → Bool
not_spendable none = true
not_spendable (some p) = if is_treasury_spend p.type then false else true

-- the changes of recordSpend
unfoldable pub debit : ℕ → ℤ → ℕ → ℕ → TreasuryState → TreasuryState
debit proposal_id amount recipient now t = record {
  balance = t.balance -ℤ amount;
  transactions =
      t.transactions
      ++ record {
        is_deposit = false;
        amount = amount;
        timestamp = now;
        source = 0;
        proposal_id = proposal_id;
        recipient = recipient;
      }
        ∷ [];
}

unfoldable pub record_spend :
    {R : Type 0} → ℕ → ℤ → ℕ → ℕ → Engine R → Result GovernanceError (Engine R)
record_spend proposal_id amount recipient now s = do
  throw_if (leb_ℤ amount (pos 0)) amount_not_positive
  throw_if (ltb_ℤ s.treasury.balance amount) insufficient_balance
  throw_if (not_spendable (lookup proposal_id s.proposals)) invalid_spend
  ok (record s { treasury = debit proposal_id amount recipient now s.treasury })

-- The report without `runwayMonths`, a rounded quotient of two of its fields.
pub record TreasuryReport : Type 0 where
  pub balance : ℤ
  pub deposits30d : ℤ
  pub spends30d : ℤ
  pub monthly_burn_rate : ℤ

abbrev pub thirty_days : ℕ
thirty_days = 30 * 24 * 60 * 60 * 1000

-- the loop over the transactions, on deposits30d and spends30d
unfoldable pub report_loop : ℕ → List Transaction → ℤ × ℤ → ℤ × ℤ
report_loop now [] acc = acc
report_loop now (tx ∷ txs) (deposits, spends) = report_loop now txs (
    if leb now (tx.timestamp + thirty_days)
    then if tx.is_deposit then (deposits +ℤ tx.amount, spends) else (deposits, spends +ℤ tx.amount)
    else (deposits, spends))

unfoldable pub get_treasury_report : {R : Type 0} → ℕ → Engine R → TreasuryReport
unfolding report_loop
get_treasury_report now s =
    let (deposits, spends) = report_loop now s.treasury.transactions (pos 0, pos 0) in
    record {
      balance = s.treasury.balance;
      deposits30d = deposits;
      spends30d = spends;
      monthly_burn_rate = spends;
    }
