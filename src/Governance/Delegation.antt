-- ===== src/Governance/Delegation.antt =====
-- Delegation of voting power (src/governance/engine.ts: setDelegation, getDelegation, getDelegators).
pub mod Acyclic
pub mod Index
use abundance_protocol.Prelude.{
  includes, include, exclude, ℕ, zero, suc, ◌+◌, Bool, true, false, Option, none, some, List, [],
  ◌∷◌, ◌++◌, ◌==◌, ◌&&◌, ◌||◌, if◌then◌else◌, length, not,
}
use abundance_protocol.Dict.{Dict, lookup, insert, erase, has}
use abundance_protocol.Registry.{update_key}
use abundance_protocol.Result.{Result, ok, err, throw_if, ◌>>=◌, ◌>>◌}
use abundance_protocol.Governance.{
  Delegations, Engine, Proposal, ProposalStatus, voting, GovernanceError, self_delegation,
  circular_delegation, already_voted,
}

-- How the loop ends: it leaves, it throws, or it is out of fuel.
pub data Walk : Type 0 where
  clear circular out_of_fuel : Walk

-- while (this.delegations.has(current)) { … }
unfoldable pub walk : ℕ → Dict ℕ → ℕ → ℕ → List ℕ → Walk
walk zero d delegator current visited = out_of_fuel
walk (suc fuel) d delegator current visited = elim (lookup current d) [
  | none ↦ clear
  | some next ↦
      let rest = walk fuel d delegator next (current ∷ visited) in
      if includes current visited then circular else if next == delegator then circular else rest
]

-- An entry is visited once at most, so their number is enough fuel for the loop.
unfoldable pub circular_check : Dict ℕ → ℕ → ℕ → Walk
circular_check d delegator delegatee = walk (suc (length d)) d delegator delegatee []

abbrev is_voting : ProposalStatus → Bool
is_voting voting = true
is_voting _ = false

-- for (const [id, proposal] of this.proposals) if (… proposal.votes.has(delegator)) throw …
unfoldable pub voted_in_active : {R : Type 0} → ℕ → Dict (Proposal R) → Bool
voted_in_active delegator [] = false
voted_in_active delegator ((_, p) ∷ ps) =
    let rest = voted_in_active delegator ps in is_voting p.status && has delegator p.votes || rest

-- `oldDelegatee` is taken out of the index where it is truthy, that is not the empty string.
unfoldable pub drop_old : ℕ → Dict ℕ → Dict (List ℕ) → Dict (List ℕ)
drop_old delegator d index = elim (lookup delegator d) [
  | none ↦ index
  | some old ↦ if old == 0 then index else update_key old (exclude delegator) index
]

-- setDelegation(delegator, null)
unfoldable pub clear_delegation : ℕ → Delegations → Delegations
clear_delegation delegator s = elim (lookup delegator s.delegations) [
  | none ↦ s
  | some old ↦ if old == 0 then s else record s {
    delegations = erase delegator s.delegations;
    index = update_key old (exclude delegator) s.index;
  }
]

abbrev opened : ℕ → Dict (List ℕ) → Dict (List ℕ)
opened delegatee index = if has delegatee index then index else insert delegatee [] index

-- the changes of setDelegation(delegator, delegatee), after its guards
unfoldable pub point : ℕ → ℕ → Delegations → Delegations
point delegator delegatee s = record s {
  delegations = insert delegator delegatee s.delegations;
  index =
      update_key delegatee (include delegator)
        (opened delegatee (drop_old delegator s.delegations s.index));
}

walk_guard : Walk → Result GovernanceError (Unit {0})
walk_guard clear = ok tt
walk_guard _ = err circular_delegation

unfoldable pub set_delegation :
    {R : Type 0} → ℕ → Option ℕ → Engine R → Result GovernanceError (Engine R)
unfolding walk_guard
set_delegation delegator none s =
    ok (record s { delegation = clear_delegation delegator s.delegation })
set_delegation delegator (some delegatee) s = do
  throw_if (delegator == delegatee) self_delegation
  walk_guard (circular_check s.delegation.delegations delegator delegatee)
  throw_if (voted_in_active delegator s.proposals) already_voted
  ok (record s { delegation = point delegator delegatee s.delegation })

unfoldable pub get_delegation : {R : Type 0} → Engine R → ℕ → Option ℕ
get_delegation s address = lookup address s.delegation.delegations

unfoldable pub get_delegators : {R : Type 0} → Engine R → ℕ → List ℕ
get_delegators s delegatee = elim (lookup delegatee s.delegation.index) [ none ↦ [] | some ds ↦ ds ]
