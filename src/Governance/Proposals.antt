-- ===== src/Governance/Proposals.antt =====
-- The life of a proposal (src/governance/engine.ts: the constructor, createProposal, startVoting,
-- tallyVotes, executeProposal, getProposal, and the two listings).
use abundance_protocol.Prelude.{
  ℕ, ◌+◌, Bool, true, false, Option, none, some, List, [], ◌∷◌, ltb, ◌==◌, ◌&&◌, if◌then◌else◌,
  select, take,
}
use abundance_protocol.Prelude.Int.{ℤ, pos, ltb_ℤ, eqb_ℤ}
use abundance_protocol.Dict.{lookup, insert, values}
use abundance_protocol.Result.{Result, ok, throw_if, or_throw, ◌>>=◌, ◌>>◌}
use abundance_protocol.Governance.{
  Numbers, ProposalType, standard, ProposalStatus, discussion, voting, passed, rejected, executed,
  expired, Config, ExecutionData, Proposal, Engine, GovernanceError, not_found,
  insufficient_deposit, not_in_discussion, discussion_running, not_in_voting, voting_running,
  not_passed, no_passed_at, timelock_active,
}
use abundance_protocol.Governance.Treasury.{is_treasury_spend, record_spend}

abbrev pub add_proposal : {R : Type 0} → Proposal R → Engine R → Engine R
add_proposal p s = record s {
  proposal_counter = s.proposal_counter + 1;
  proposals = insert p.id p s.proposals;
}

module _ {R : Type 0} (num : Numbers R) where
  -- the proposal that createProposal builds at `now`
  abbrev pub new_proposal :
      ℕ → ℕ → ℕ → ℕ → ProposalType → ℤ → Option ExecutionData → Option R → ℕ → Config R → Proposal R
  new_proposal new_id proposer title description type deposit execution threshold now c = record {
    id = new_id;
    proposer = proposer;
    title = title;
    description = description;
    type = type;
    deposit = deposit;
    status = discussion;
    votes = [];
    created_at = now;
    voting_starts_at = now + c.discussion_period_ms;
    voting_ends_at = now + c.discussion_period_ms + c.voting_period_ms;
    execution_data = execution;
    passed_at = none;
    executed_at = none;
    total_for_power = num.zero;
    total_against_power = num.zero;
    threshold = threshold;
  }

  -- createProposal({title, description?, deposit, proposer?, threshold?}); what is optional and absent
  -- arrives as its default
  unfoldable pub create_from_options :
      ℕ → ℕ → ℕ → ℕ → ℤ → Option R → ℕ → Engine R → Result GovernanceError (Engine R)
  create_from_options new_id proposer title description deposit threshold now s = do
    throw_if (ltb_ℤ deposit s.min_deposit) insufficient_deposit
    ok (
        add_proposal
          (new_proposal new_id proposer title description standard deposit none threshold now
            s.config)
          s)

  -- createProposal(proposer, title, description, type, deposit, executionData?)
  unfoldable pub create_positional :
      ℕ
      → ℕ
      → ℕ
      → ℕ
      → ProposalType
      → ℤ
      → Option ExecutionData
      → ℕ
      → Engine R
      → Result GovernanceError (Engine R)
  create_positional new_id proposer title description type deposit execution now s = do
    throw_if (ltb_ℤ deposit (pos 1000)) insufficient_deposit
    ok (
        add_proposal
          (new_proposal new_id proposer title description type deposit execution none now s.config)
          s)

  -- proposal.totalForPower / totalCast >= threshold, where something was cast
  abbrev pub carries : R → R → R → Bool
  carries approving total threshold =
      num.less num.zero total && num.geq (num.div approving total) threshold

-- the proposal's own threshold, a fraction, or that of the configuration, a percentage
abbrev pub threshold_of : {R : Type 0} → Numbers R → Engine R → Proposal R → R
threshold_of num s p = elim p.threshold [
  | none ↦ num.div s.config.standard_threshold num.hundred
  | some t ↦ t
]

abbrev pub is_discussion : ProposalStatus → Bool
is_discussion discussion = true
is_discussion _ = false

abbrev pub is_voting : ProposalStatus → Bool
is_voting voting = true
is_voting _ = false

abbrev pub is_passed : ProposalStatus → Bool
is_passed passed = true
is_passed _ = false

abbrev pub unless : Bool → Bool
unless true = false
unless false = true

abbrev pub store : {R : Type 0} → ℕ → Proposal R → Engine R → Engine R
store i p s = record s { proposals = insert i p s.proposals }

unfoldable pub start_voting : {R : Type 0} → ℕ → ℕ → Engine R → Result GovernanceError (Engine R)
start_voting i now s = do
  p ← or_throw (lookup i s.proposals) not_found
  throw_if (unless (is_discussion p.status)) not_in_discussion
  throw_if (unless s.simplified_mode && ltb now p.voting_starts_at) discussion_running
  ok (store i (record p { status = voting }) s)

-- Returns whether the proposal passed, and the two powers.
unfoldable pub tally_votes :
    {R : Type 0} → Numbers R → ℕ → ℕ → Engine R → Result GovernanceError ((Bool × R × R) × Engine R)
tally_votes num i now s = do
  p ← or_throw (lookup i s.proposals) not_found
  throw_if (unless (is_voting p.status)) not_in_voting
  throw_if (unless s.simplified_mode && ltb now p.voting_ends_at) voting_running
  let approving = p.total_for_power
  let against = p.total_against_power
  let carried = carries num approving (num.add approving against) (threshold_of num s p)
  ok (
    (carried, approving, against),
    store i
        (if carried
          then record p { status = passed; passed_at = some now }
          else record p { status = rejected })
        s,
  )

-- the treasury spend of executeProposal, where there is one and its parameters are truthy
unfoldable pub spend_of :
    {R : Type 0} → ℕ → ℕ → Proposal R → Engine R → Result GovernanceError (Engine R)
spend_of i now p s = elim p.execution_data [
  | none ↦ ok s
  | some x ↦
      if is_treasury_spend p.type && unless (eqb_ℤ x.amount (pos 0)) && unless (x.recipient == 0)
      then record_spend i x.amount x.recipient now s
      else ok s
]

unfoldable pub execute_proposal :
    {R : Type 0} → ℕ → ℕ → Engine R → Result GovernanceError (Engine R)
execute_proposal i now s = do
  p ← or_throw (lookup i s.proposals) not_found
  throw_if (unless (is_passed p.status)) not_passed
  passed_at ← or_throw p.passed_at no_passed_at
  throw_if (ltb now (passed_at + s.config.timelock_ms)) timelock_active
  s' ← spend_of i now p s
  ok (store i (record p { status = executed; executed_at = some now }) s')

unfoldable pub get_proposal : {R : Type 0} → ℕ → Engine R → Result GovernanceError (Proposal R)
get_proposal i s = or_throw (lookup i s.proposals) not_found

-- `a.sort(…)`, which is stable: `before y x` is that the comparison is negative
unfoldable pub insert_by : {A : Type 0} → (A → A → Bool) → A → List A → List A
insert_by before x [] = x ∷ []
insert_by before x (y ∷ ys) =
    let rest = insert_by before x ys in if before y x then y ∷ rest else x ∷ y ∷ ys

unfoldable pub sort_by : {A : Type 0} → (A → A → Bool) → List A → List A
sort_by before [] = []
sort_by before (x ∷ xs) = insert_by before x (sort_by before xs)

unfoldable pub get_active_proposals : {R : Type 0} → Engine R → List (Proposal R)
get_active_proposals s =
    sort_by (λ a b. ltb a.voting_ends_at b.voting_ends_at)
      (select (λ p. is_voting p.status) (values s.proposals))

abbrev is_over : ProposalStatus → Bool
is_over passed = true
is_over rejected = true
is_over executed = true
is_over expired = true
is_over _ = false

-- `limit` is not negative
unfoldable pub get_proposal_history : {R : Type 0} → Engine R → ℕ → List (Proposal R)
get_proposal_history s limit = take limit (
    sort_by (λ a b. ltb b.created_at a.created_at)
      (select (λ p. is_over p.status) (values s.proposals)))
