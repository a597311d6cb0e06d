-- ===== src/Governance.antt =====
-- src/governance/engine.ts, class GovernanceEngine: its types and the state. Identifiers and texts
-- are numbers (0 is the empty string), dates are milliseconds, and sats are integers. Token balances
-- and voting powers are JavaScript numbers of type `R`, whose operations are a `Numbers`.
pub mod Delegation
pub mod Treasury
pub mod Proposals
pub mod Voting
pub mod Calls
use abundance_protocol.Prelude.{ℕ, Bool, true, false, Option, List, ◌≡◌}
use abundance_protocol.Prelude.Int.{ℤ}
use abundance_protocol.Dict.{Dict}

-- Floating point arithmetic, which the engine uses on balances and powers.
pub record Numbers (R : Type 0) : Type 0 where
  pub zero : R
  pub add : R → R → R
  pub sub : R → R → R
  pub mul : R → R → R
  pub div : R → R → R
  pub sqrt : R → R
  pub less : R → R → Bool
  pub geq : R → R → Bool
  pub tenth : R
  pub hundred : R

pub data ProposalType : Type 0 where
  standard critical treasury_spend parameter_change : ProposalType

pub data ProposalStatus : Type 0 where
  discussion voting passed rejected executed expired : ProposalStatus

pub record Config (R : Type 0) : Type 0 where
  pub quorum_percent : R
  pub standard_threshold : R
  pub critical_threshold : R
  pub voting_period_ms : ℕ
  pub timelock_ms : ℕ
  pub discussion_period_ms : ℕ
  pub total_supply : R

-- `direction` is true for 'for'
pub record Vote (R : Type 0) : Type 0 where
  pub power : R
  pub direction : Bool
  pub timestamp : ℕ
  pub raw_balance : R

-- `params.amount` and `params.recipient`, where 0 stands for a missing value
pub record ExecutionData : Type 0 where
  pub amount : ℤ
  pub recipient : ℕ

pub record Proposal (R : Type 0) : Type 0 where
  pub id : ℕ
  pub proposer : ℕ
  pub title : ℕ
  pub description : ℕ
  pub type : ProposalType
  pub deposit : ℤ
  pub status : ProposalStatus
  pub votes : Dict (Vote R)
  pub created_at : ℕ
  pub voting_starts_at : ℕ
  pub voting_ends_at : ℕ
  pub execution_data : Option ExecutionData
  pub passed_at : Option ℕ
  pub executed_at : Option ℕ
  pub total_for_power : R
  pub total_against_power : R
  pub threshold : Option R

pub record Transaction : Type 0 where
  pub is_deposit : Bool
  pub amount : ℤ
  pub timestamp : ℕ
  pub source : ℕ
  pub proposal_id : ℕ
  pub recipient : ℕ

-- `treasuryBalance` and `treasuryTransactions`
pub record TreasuryState : Type 0 where
  pub balance : ℤ
  pub transactions : List Transaction

-- `delegations`, and `delegationIndex`, whose sets are lists in order of insertion
pub record Delegations : Type 0 where
  pub delegations : Dict ℕ
  pub index : Dict (List ℕ)

pub record Engine (R : Type 0) : Type 0 where
  pub config : Config R
  pub proposals : Dict (Proposal R)
  pub treasury : TreasuryState
  pub delegation : Delegations
  pub token_balances : Dict R
  pub proposal_counter : ℕ
  pub min_deposit : ℤ
  pub anti_whale_cap : R
  pub quadratic_voting : Bool
  pub simplified_mode : Bool

pub data GovernanceError : Type 0 where
  self_delegation circular_delegation already_voted : GovernanceError
  not_found insufficient_deposit not_in_discussion discussion_running : GovernanceError
  not_in_voting voting_over voting_not_started has_delegated voting_running : GovernanceError
  not_passed no_passed_at timelock_active : GovernanceError
  amount_not_positive insufficient_balance invalid_spend : GovernanceError
