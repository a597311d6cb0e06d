-- ===== src/Governance/Voting.antt =====
-- Votes (src/governance/engine.ts: registerBalance, calculateVotingPower, castVote).
pub mod Cast
use abundance_protocol.Prelude.{
  ℕ, Bool, true, false, Option, none, some, List, [], ◌∷◌, ltb, ◌&&◌, ◌||◌, if◌then◌else◌,
}
use abundance_protocol.Dict.{Dict, lookup, insert, has}
use abundance_protocol.Result.{Result, ok, err, throw_if, or_throw, ◌>>=◌, ◌>>◌}
use abundance_protocol.Governance.{
  Numbers, Vote, Proposal, Engine, GovernanceError, not_found, not_in_voting, voting_over,
  voting_not_started, has_delegated,
}
use abundance_protocol.Governance.Delegation.{get_delegators}
use abundance_protocol.Governance.Proposals.{is_voting, store}

unfoldable pub register_balance : {R : Type 0} → ℕ → R → Engine R → Engine R
register_balance address balance s = record s {
  token_balances = insert address balance s.token_balances;
}

module _ {R : Type 0} (num : Numbers R) where
  -- Math.min(Math.sqrt(balance), Math.sqrt(totalSupply * 0.1))
  unfoldable pub calculate_voting_power : Engine R → R → R
  calculate_voting_power s balance =
      let raw = num.sqrt balance in
      let most = num.sqrt (num.mul s.config.total_supply num.tenth) in
      if num.less most raw then most else raw

  -- the loop over the delegators
  unfoldable pub add_delegated : Engine R → List ℕ → R → R
  add_delegated s [] power = power
  add_delegated s (d ∷ ds) power =
      let balance : R = elim (lookup d s.token_balances) [ none ↦ num.zero | some b ↦ b ] in
      add_delegated s ds (num.add power (calculate_voting_power s balance))

  -- the anti-whale cap on the balance, and whether it applied
  unfoldable pub effective_balance : Engine R → Option R → R → R × Bool
  effective_balance s none balance = (balance, false)
  effective_balance s (some total) balance =
      let most = num.mul total s.anti_whale_cap in
      if num.less num.zero s.anti_whale_cap && num.less most balance
      then (most, true)
      else (balance, false)

  unfoldable pub power_of : Engine R → ℕ → R → R
  power_of s voter effective =
      if s.simplified_mode && s.quadratic_voting
      then num.sqrt effective
      else add_delegated s (get_delegators s voter) (calculate_voting_power s effective)

  abbrev withdraw : Bool → Vote R → R → R
  withdraw direction v total =
      if v.direction
      then (if direction then num.sub total v.power else total)
      else (if direction then total else num.sub total v.power)

  -- "Remove existing vote from tallies": the total of one direction without it
  abbrev without_existing : Bool → Option (Vote R) → R → R
  without_existing direction none total = total
  without_existing direction (some v) total = withdraw direction v total

  -- a total with the new vote's power, where it has that direction
  abbrev with_new : Bool → Vote R → R → R
  with_new direction v total =
      if v.direction
      then (if direction then num.add total v.power else total)
      else (if direction then total else num.add total v.power)

  -- the changes of castVote to the proposal
  unfoldable pub place_vote : ℕ → Vote R → Proposal R → Proposal R
  place_vote voter v p = record p {
    votes = insert voter v p.votes;
    total_for_power =
        with_new true v (without_existing true (lookup voter p.votes) p.total_for_power);
    total_against_power =
        with_new false v (without_existing false (lookup voter p.votes) p.total_against_power);
  }

  -- the guards that the simplified mode skips
  unfoldable pub timing : ℕ → ℕ → Proposal R → Engine R → Result GovernanceError (Unit {0})
  timing voter now p s = do
    throw_if (ltb p.voting_ends_at now) voting_over
    throw_if (ltb now p.voting_starts_at) voting_not_started
    throw_if (has voter s.delegation.delegations) has_delegated

  -- Returns the voting power, and whether the balance was capped.
  unfoldable pub cast_vote :
      ℕ → ℕ → Bool → R → Option R → ℕ → Engine R → Result GovernanceError ((R × Bool) × Engine R)
  cast_vote i voter direction balance total now s = do
    p ← or_throw (lookup i s.proposals) not_found
    throw_if (if is_voting p.status then false else true) not_in_voting
    if s.simplified_mode then ok tt else timing voter now p s
    let (effective, capped) = effective_balance s total balance
    let power = power_of s voter effective
    let v : Vote R = record {
      power = power;
      direction = direction;
      timestamp = now;
      raw_balance = balance;
    }
    ok ((power, capped), store i (place_vote voter v p) s)
