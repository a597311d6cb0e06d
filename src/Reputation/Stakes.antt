-- ===== src/Reputation/Stakes.antt =====
-- Stakes and reliability (src/reputation/manager.ts: updateStake, updateReliability, stakeNode).
use abundance_protocol.Prelude.{ℕ}
use abundance_protocol.Registry.{update_key}
use abundance_protocol.Reputation.{
  Fractions, ReputationScore, Manager, at_least, clamp, ensure, calculate_overall,
}

module _ {R : Type 0} (num : Fractions R) where
  -- The change of a node's score by updateStake, updateReliability and stakeNode.
  unfoldable pub change_score :
      ℕ → ℕ → (ReputationScore R → ReputationScore R) → Manager R → Manager R
  change_score node_id now g s =
      let s' = ensure num node_id now s in record s' { scores = update_key node_id g s'.scores }

  unfoldable pub update_stake : ℕ → R → ℕ → Manager R → Manager R
  update_stake node_id amount now = change_score node_id now (λ score.
      let score' = record score { stake_amount = at_least num (num.lit 0 1) amount } in
      record score' { overall = calculate_overall num score'; last_active = now })

  unfoldable pub update_reliability : ℕ → R → ℕ → Manager R → Manager R
  update_reliability node_id uptime now = change_score node_id now (λ score.
      let score' = record score { reliability = clamp num uptime } in
      record score' { overall = calculate_overall num score' })

  unfoldable pub stake_node : ℕ → R → ℕ → Manager R → Manager R
  stake_node node_id amount now =
      change_score node_id now
        (λ score. record score { stake_amount = num.add score.stake_amount amount })
