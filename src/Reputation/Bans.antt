-- ===== src/Reputation/Bans.antt =====
-- The manager's methods as calls, and a node that is banned.
pub mod Entry
pub mod Changes
pub mod Lasting
pub mod Threshold
use abundance_protocol.Prelude.{
  ℕ, ◌≡◌, ◌≢◌, refl, Bool, true, false, not, Option, none, some, List, [], ◌∷◌, ltb, leb, ◌==◌,
  if◌then◌else◌, arith, inl, inr, Option-cases, Bool-cases, exclude, include, length,
}
use abundance_protocol.Dict.{
  Dict, lookup, insert, has, lookup-insert, lookup-insert_self, lookup-insert_ne,
}
use abundance_protocol.Registry.{update_key, update_key_missing, update_key_found}
use abundance_protocol.Reputation.{
  Fractions, ReputationScore, NodeMetadata, ReviewFlag, Manager, same_capabilities, flag, nodes_on,
  new_score, new_metadata, have_identical_capabilities, sybil_loop, check_sybil_detection,
  register_ip, initialize_node, ensure, register_node_ip,
}
use abundance_protocol.Reputation.Stakes.{
  change_score, update_stake, update_reliability, stake_node,
}
use abundance_protocol.Reputation.Tasks.{
  FailureReason, on_node, record_task_completion, record_task_failure,
}
use abundance_protocol.Reputation.Slashing.{
  SlashForm, is_banned, slash_amount, slash_score, punish, slash,
}
use abundance_protocol.Reputation.Queries.{
  is_listed, get_score, is_eligible, decay_loop, decay_scores, get_reputation,
}

pub data Call (R : Type 0) : Type 0 where
  initializes : ℕ → ℕ → ℕ → Call R
  registers : ℕ → ℕ → ℕ → Call R
  completes : ℕ → R → R → ℕ → ℕ → Call R
  fails : ℕ → FailureReason → ℕ → Call R
  slashes : ℕ → SlashForm R → ℕ → ℕ → Call R
  stakes : ℕ → R → ℕ → Call R
  adds_stake : ℕ → R → ℕ → Call R
  relies : ℕ → R → ℕ → Call R
  decays : ℕ → Call R
  asks : ℕ → ℕ → Call R

-- A node that has a score and is banned.
pub record IsOut {R : Type 0} (node_id : ℕ) (s : Manager R) : Type 0 where
  pub known : has node_id s.scores ≡ true
  pub banned : is_banned node_id s ≡ true

module _ {R : Type 0} (num : Fractions R) where
  unfoldable pub perform : Call R → Manager R → Manager R
  perform (initializes node_id ip now) s = initialize_node num node_id ip now s
  perform (registers node_id ip now) s = register_node_ip num node_id ip now s
  perform (completes node_id quality time type now) s =
      record_task_completion num node_id quality time type now s
  perform (fails node_id reason now) s = record_task_failure num node_id reason now s
  perform (slashes node_id form reason now) s = (slash num node_id form reason now s).1
  perform (stakes node_id amount now) s = update_stake num node_id amount now s
  perform (adds_stake node_id amount now) s = stake_node num node_id amount now s
  perform (relies node_id uptime now) s = update_reliability num node_id uptime now s
  perform (decays now) s = decay_scores num now s
  perform (asks node_id now) s = (get_reputation num node_id now s).1

  unfoldable pub run : List (Call R) → Manager R → Manager R
  run [] s = s
  run (c ∷ cs) s = run cs (perform c s)

  -- No call initialises the node explicitly.
  abbrev pub Spares : ℕ → List (Call R) → Type 0
  Spares i [] = Unit
  Spares i (initializes node_id _ _ ∷ cs) = (node_id ≢ i) × Spares i cs
  Spares i (_ ∷ cs) = Spares i cs
