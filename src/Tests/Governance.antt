-- ===== src/Tests/Governance.antt =====
-- An engine with a proposal of 50 tokens' votes, on fixed-point numbers.
mod Delegation
mod Treasury
use abundance_protocol.Prelude.{
  inr, inl, Bool-cases, ◌++◌, ℕ, zero, suc, ◌+◌, ◌*◌, ◌≤◌, ◌≡◌, ◌≢◌, refl, none, some, Option, true,
  false, List, [], ◌∷◌, arith, leb, if◌then◌else◌, ◌==◌,
}
use abundance_protocol.Prelude.Int.{
  ℤ, pos, pos_part, ◌+ℤ◌, ◌-ℤ◌, ◌≤ℤ◌, ltb_ℤ, leb_ℤ, scale, quot, int_laws,
}
use abundance_protocol.Dict.{Dict, lookup, Every, Every-insert}
use abundance_protocol.Result.{ok, err}
use abundance_protocol.Governance.{
  Numbers, Engine, Proposal, Vote, ExecutionData, treasury_spend, voting, passed, executed,
  not_passed, TreasuryState,
}
use abundance_protocol.Governance.Delegation.{
  voted_in_active, get_delegators, circular_check, walk, set_delegation, out_of_fuel,
}
use abundance_protocol.Governance.Delegation.Acyclic.{
  stop, step, IsAcyclic, Ends, circular_check_total, set_delegation-IsAcyclic,
}
use abundance_protocol.Governance.Delegation.Index.{IsIndexed, set_delegation-IsIndexed}
use abundance_protocol.Governance.Treasury.{record_deposit, record_spend, credit, debit}
use abundance_protocol.Governance.Treasury.Ledger.{IsBalanced}
use abundance_protocol.Governance.Proposals.{
  spend_of, create_positional, start_voting, tally_votes, execute_proposal,
}
use abundance_protocol.Governance.Voting.{
  effective_balance, calculate_voting_power, add_delegated, power_of, place_vote, timing, cast_vote,
}
use abundance_protocol.Governance.Calls.{
  after_with, after, Call, creates_positional, starts, casts, tallies, executes, deposits, perform,
  run,
}
use abundance_protocol.Governance.Calls.Timelock.Runs.{run_executed_late}
use abundance_protocol.Governance.Calls.Outcome.{
  with_critical, reconfigured, execute_proposal_once, execute_proposal_pays,
}

-- the largest k up to the first argument with k * k ≤ n
unfoldable root : ℕ → ℕ → ℕ
root zero n = 0
root (suc k) n = let rest = root k n in if leb (suc k * suc k) n then suc k else rest

-- Fixed-point numbers with one decimal: n stands for n / 10.
abbrev decimals : Numbers ℤ
unfolding root scale quot ◌+ℤ◌ ◌-ℤ◌
decimals = record {
  zero = pos 0;
  add = λ a b. a +ℤ b;
  sub = λ a b. a -ℤ b;
  mul = λ a b. quot (scale a (pos_part b)) 10;
  div = λ a b. quot (scale a 10) (pos_part b);
  sqrt = λ a. pos (root 100 (pos_part a * 10));
  less = ltb_ℤ;
  geq = λ a b. leb_ℤ b a;
  tenth = pos 1;
  hundred = pos 1000;
}

abbrev engine : Engine ℤ
engine = record {
  config = record {
    quorum_percent = pos 200;
    standard_threshold = pos 500;
    critical_threshold = pos 670;
    voting_period_ms = 700;
    timelock_ms = 50;
    discussion_period_ms = 100;
    total_supply = pos 10000;
  };
  proposals = [];
  treasury = record { balance = pos 0; transactions = [] };
  delegation = record { delegations = []; index = [] };
  token_balances = [];
  proposal_counter = 0;
  min_deposit = pos 0;
  anti_whale_cap = pos 0;
  quadratic_voting = false;
  simplified_mode = false;
}

abbrev calls : List (Call ℤ)
calls =
    deposits (pos 400) 3 0
    ∷ creates_positional 1 2 3 4 treasury_spend (pos 1000)
        (some (record { amount = pos 90; recipient = 5 })) 10
    ∷ starts 1 110
    ∷ casts 1 6 true (pos 160) none 120
    ∷ casts 1 7 false (pos 40) none 130
    ∷ tallies 1 810
    ∷ []

abbrev voted : Engine ℤ
unfolding perform run
voted = run decimals calls engine

abbrev payload : ExecutionData
payload = record { amount = pos 90; recipient = 5 }

abbrev ballot : Dict (Vote ℤ)
ballot =
    (6, record { power = pos 40; direction = true; timestamp = 120; raw_balance = pos 160 })
    ∷ (7, record { power = pos 20; direction = false; timestamp = 130; raw_balance = pos 40 })
    ∷ []

abbrev pub in_vote : Proposal ℤ
in_vote = record {
  id = 1;
  proposer = 2;
  title = 3;
  description = 4;
  type = treasury_spend;
  deposit = pos 1000;
  status = voting;
  votes = ballot;
  created_at = 10;
  voting_starts_at = 110;
  voting_ends_at = 810;
  execution_data = some payload;
  passed_at = none;
  executed_at = none;
  total_for_power = pos 40;
  total_against_power = pos 20;
  threshold = none;
}

abbrev spending : Proposal ℤ
spending = record in_vote { status = passed; passed_at = some 810 }

abbrev pub rich : TreasuryState
unfolding credit ◌+ℤ◌
rich = credit (pos 400) 3 0 (record { balance = pos 0; transactions = [] })

abbrev pub open_engine : Engine ℤ
open_engine = record engine {
  proposals = (1, in_vote) ∷ [];
  treasury = rich;
  proposal_counter = 1;
  delegation = record { delegations = (8, 9) ∷ []; index = (9, 8 ∷ []) ∷ [] };
}

abbrev passed_engine : Engine ℤ
passed_engine = record engine {
  proposals = (1, spending) ∷ [];
  treasury = rich;
  proposal_counter = 1;
}

-- The votes of 160 and 40 tokens carry the proposal.
votes_carry : run decimals calls engine ≡ passed_engine
unfolding run perform tally_votes cast_vote start_voting create_positional record_deposit timing
    place_vote decimals rich credit power_of add_delegated get_delegators calculate_voting_power
    effective_balance
votes_carry = refl

abbrev done : Engine ℤ
unfolding execute_proposal
done = after passed_engine (execute_proposal 1 860 passed_engine)

run_executed_late_example :
    (t : ℕ) × (u : ℕ) × (◌≡◌ {A = Option ℕ} (some 810) (some t))
    × (◌≡◌ {A = Option ℕ} (some 860) (some u))
    × (t + 50 ≤ u)
unfolding run perform execute_proposal tally_votes cast_vote start_voting create_positional
    record_deposit timing place_vote decimals power_of add_delegated get_delegators
    calculate_voting_power effective_balance spend_of record_spend credit
run_executed_late_example =
    run_executed_late decimals (calls ++ executes 1 860 ∷ []) engine 1
      (record spending { status = executed; executed_at = some 860 }) refl refl refl

execute_proposal_pays_example :
    (pos 1 ≤ℤ pos 90)
    × (pos 90 ≤ℤ pos 400)
    × (done.treasury.transactions
        ≡ passed_engine.treasury.transactions
          ++ (record {
            is_deposit = false;
            amount = pos 90;
            timestamp = 860;
            source = 0;
            proposal_id = 1;
            recipient = 5;
          }
              ∷ []))
    × (done.treasury.balance +ℤ pos 90 ≡ pos 400)
unfolding execute_proposal spend_of record_spend rich
execute_proposal_pays_example =
    execute_proposal_pays 1 860 passed_engine done refl refl refl refl refl refl
