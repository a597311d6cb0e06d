-- ===== src/Reputation/Slashing.antt =====
-- Slashing and bans (src/reputation/manager.ts: slash, isBanned).
use abundance_protocol.Prelude.{ℕ, ◌+◌, Bool, true, false, none, some, leb, if◌then◌else◌}
use abundance_protocol.Dict.{lookup, insert}
use abundance_protocol.Registry.{update_key}
use abundance_protocol.Reputation.{
  Fractions, ReputationScore, Manager, slashed, at_least, flag, ensure,
}

-- slash(nodeId, amount, reason) or slash(nodeId, reason)
pub data SlashForm (R : Type 0) : Type 0 where
  by_amount : R → SlashForm R
  by_percentage : SlashForm R

-- meta?.isBanned
unfoldable pub is_banned : {R : Type 0} → ℕ → Manager R → Bool
is_banned node_id s = elim (lookup node_id s.metadata) [ none ↦ false | some meta ↦ meta.banned ]

module _ {R : Type 0} (num : Fractions R) where
  unfoldable pub slash_amount : SlashForm R → ReputationScore R → Manager R → R
  slash_amount (by_amount amount) score s = amount
  slash_amount by_percentage score s =
      num.floor (num.mul score.stake_amount s.config.stake_slash_percent)

  -- The changes to the score before the threshold is asked for.
  unfoldable pub slash_score : R → Manager R → ReputationScore R → ReputationScore R
  slash_score amount s score = record score {
    stake_amount = at_least num (num.lit 0 1) (num.sub score.stake_amount amount);
    slash_count = score.slash_count + 1;
    overall = at_least num (num.lit 0 1) (num.sub score.overall s.config.slash_penalty);
  }

  abbrev pub punish : ℕ → SlashForm R → ℕ → ℕ → ReputationScore R → Manager R → Bool × Manager R
  punish node_id form reason now score s =
      let amount = slash_amount form score s in
      let score' = slash_score amount s score in
      let flagged =
        update_key node_id (flag num (slashed score'.slash_count reason amount)) s.metadata in
      if leb s.config.slash_threshold score'.slash_count
      then (
        true,
        record s {
          scores = insert node_id (record score' { overall = num.lit 0 1 }) s.scores;
          metadata = update_key node_id (λ meta. record meta { banned = true }) flagged;
        },
      )
      else (
        false,
        record s {
          scores = insert node_id (record score' { last_active = now }) s.scores;
          metadata = flagged;
        },
      )

  -- slash, from where the node has a score on
  unfoldable pub slash_known : ℕ → SlashForm R → ℕ → ℕ → Manager R → Bool × Manager R
  slash_known node_id form reason now s = elim (lookup node_id s.scores) [
    | none ↦ (false, s)
    | some score ↦
        if is_banned node_id s then (false, s) else punish node_id form reason now score s
  ]

  -- Returns whether the node was banned.
  unfoldable pub slash : ℕ → SlashForm R → ℕ → ℕ → Manager R → Bool × Manager R
  slash node_id form reason now s = slash_known node_id form reason now (ensure num node_id now s)
