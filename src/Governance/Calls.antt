-- ===== src/Governance/Calls.antt =====
-- The public methods of the engine as calls, and sequences of them. A call that
-- throws changes nothing: its guards stand before its first assignment.
pub mod Timelock
pub mod Outcome
pub mod Balance
use abundance_protocol.Prelude.{ℕ, Bool, Option, List, [], ◌∷◌}
use abundance_protocol.Prelude.Int.{ℤ}
use abundance_protocol.Result.{Result, ok, err}
use abundance_protocol.Governance.{Numbers, ProposalType, ExecutionData, Engine, GovernanceError}
use abundance_protocol.Governance.Delegation.{set_delegation}
use abundance_protocol.Governance.Treasury.{record_deposit, record_spend}
use abundance_protocol.Governance.Proposals.{
  create_from_options, create_positional, start_voting, tally_votes, execute_proposal,
}
use abundance_protocol.Governance.Voting.{register_balance, cast_vote}

pub data Call (R : Type 0) : Type 0 where
  creates_from_options : ℕ → ℕ → ℕ → ℕ → ℤ → Option R → ℕ → Call R
  creates_positional : ℕ → ℕ → ℕ → ℕ → ProposalType → ℤ → Option ExecutionData → ℕ → Call R
  starts : ℕ → ℕ → Call R
  casts : ℕ → ℕ → Bool → R → Option R → ℕ → Call R
  tallies : ℕ → ℕ → Call R
  executes : ℕ → ℕ → Call R
  deposits : ℤ → ℕ → ℕ → Call R
  spends : ℕ → ℤ → ℕ → ℕ → Call R
  delegates : ℕ → Option ℕ → Call R
  registers : ℕ → R → Call R

abbrev pub after : {R : Type 0} → Engine R → Result GovernanceError (Engine R) → Engine R
after s (ok s') = s'
after s (err _) = s

abbrev pub after_with : {R A : Type 0} → Engine R → Result GovernanceError (A × Engine R) → Engine R
after_with s (ok (_, s')) = s'
after_with s (err _) = s

unfoldable pub perform : {R : Type 0} → Numbers R → Call R → Engine R → Engine R
perform num (creates_from_options i proposer title text deposit threshold now) s =
    after s (create_from_options num i proposer title text deposit threshold now s)
perform num (creates_positional i proposer title text type deposit execution now) s =
    after s (create_positional num i proposer title text type deposit execution now s)
perform num (starts i now) s = after s (start_voting i now s)
perform num (casts i voter d balance total now) s =
    after_with s (cast_vote num i voter d balance total now s)
perform num (tallies i now) s = after_with s (tally_votes num i now s)
perform num (executes i now) s = after s (execute_proposal i now s)
perform num (deposits amount source now) s = after s (record_deposit amount source now s)
perform num (spends i amount recipient now) s = after s (record_spend i amount recipient now s)
perform num (delegates a target) s = after s (set_delegation a target s)
perform num (registers a balance) s = register_balance a balance s

unfoldable pub run : {R : Type 0} → Numbers R → List (Call R) → Engine R → Engine R
run num [] s = s
run num (c ∷ cs) s = run num cs (perform num c s)
