-- ===== src/Reputation.antt =====
-- src/reputation/manager.ts, class ReputationManager: its data, its state, and how nodes enter it. Scores
-- are JavaScript numbers of a type `R`, whose operations are a `Fractions`; counts are naturals
-- and dates are milliseconds. A review flag is its text's kind with what is filled in.
pub mod Stakes
pub mod Tasks
pub mod Slashing
pub mod Queries
pub mod Bans
use abundance_protocol.Prelude.{
  ℕ, ◌+◌, Bool, true, false, Option, none, some, List, [], ◌∷◌, ◌++◌, ltb, ◌==◌, ◌&&◌,
  if◌then◌else◌, length, include, exclude,
}
use abundance_protocol.Dict.{Dict, lookup, insert}
use abundance_protocol.Registry.{update_key}

-- Floating point arithmetic; `lit n d` is the literal whose decimal value is n / d.
pub record Fractions (R : Type 0) : Type 0 where
  pub add : R → R → R
  pub sub : R → R → R
  pub mul : R → R → R
  pub div : R → R → R
  pub floor : R → R
  pub less : R → R → Bool
  -- Math.max and Math.min of two numbers, and NaN
  pub max : R → R → R
  pub min : R → R → R
  pub nan : R
  pub lit : ℕ → ℕ → R

pub record ReputationConfig (R : Type 0) : Type 0 where
  pub decay_rate : R
  pub slash_penalty : R
  pub min_stake : R
  pub stake_slash_percent : R
  pub jump_detection_window : ℕ
  pub jump_threshold : R
  pub slash_threshold : ℕ

pub record ReputationScore (R : Type 0) : Type 0 where
  pub node_id : ℕ
  pub overall : R
  pub completed_tasks : ℕ
  pub failed_tasks : ℕ
  pub success_rate : R
  pub avg_quality : R
  pub avg_response_time : R
  pub reliability : R
  pub stake_amount : R
  pub slash_count : ℕ
  pub skills : Dict R
  pub last_active : ℕ
  pub joined_at : ℕ

pub data ReviewFlag (R : Type 0) : Type 0 where
  same_capabilities : ℕ → ℕ → ReviewFlag R
  slashed : ℕ → ℕ → R → ReviewFlag R
  jumped : R → ReviewFlag R

pub record NodeMetadata (R : Type 0) : Type 0 where
  pub reputation_history : List (ℕ × R)
  pub ip_address : ℕ
  pub banned : Bool
  pub review_flags : List (ReviewFlag R)
  pub total_task_count : ℕ

pub record Manager (R : Type 0) : Type 0 where
  pub scores : Dict (ReputationScore R)
  pub metadata : Dict (NodeMetadata R)
  pub ip_registry : Dict (List ℕ)
  pub config : ReputationConfig R

module _ {R : Type 0} (num : Fractions R) where
  -- Math.max(a, x) and Math.min(a, x)
  abbrev pub at_least : R → R → R
  at_least a x = num.max a x

  abbrev pub at_most : R → R → R
  at_most a x = num.min a x

  abbrev pub clamp : R → R
  clamp x = at_least (num.lit 0 1) (at_most (num.lit 1 1) x)

  abbrev pub abs : R → R
  abs x = if num.less x (num.lit 0 1) then num.sub (num.lit 0 1) x else x

  abbrev pub new_score : ℕ → ℕ → ReputationScore R
  new_score node_id now = record {
    node_id = node_id;
    overall = num.lit 5 10;
    completed_tasks = 0;
    failed_tasks = 0;
    success_rate = num.lit 0 1;
    avg_quality = num.lit 0 1;
    avg_response_time = num.lit 0 1;
    reliability = num.lit 1 1;
    stake_amount = num.lit 0 1;
    slash_count = 0;
    skills = [];
    last_active = now;
    joined_at = now;
  }

  abbrev pub new_metadata : ℕ → ℕ → NodeMetadata R
  new_metadata ip_address now = record {
    reputation_history = (now, num.lit 5 10) ∷ [];
    ip_address = ip_address;
    banned = false;
    review_flags = [];
    total_task_count = 0;
  }

  -- the loop over the first node's skills
  unfoldable pub skills_agree : Dict R → Dict R → Bool
  skills_agree [] other = true
  skills_agree ((skill, level) ∷ skills) other =
      let rest = skills_agree skills other in
      elim (lookup skill other) [
        | none ↦ false
        | some other_level ↦
            if num.less (num.lit 1 100) (abs (num.sub other_level level)) then false else rest
      ]

  unfoldable pub have_identical_capabilities : Dict R → Dict R → Bool
  have_identical_capabilities skills1 skills2 =
      if (length skills1 == 0) && (length skills2 == 0)
      then false
      else if length skills1 == length skills2
      then skills_agree skills1 skills2
      else false

  abbrev pub flag : ReviewFlag R → NodeMetadata R → NodeMetadata R
  flag f meta = record meta { review_flags = meta.review_flags ++ (f ∷ []) }

  -- The loop over the nodes of an address. The guard against a second flag compares with a text that no
  -- flag has, so it never holds.
  unfoldable pub sybil_loop : ℕ → ℕ → Dict R → List ℕ → Manager R → Manager R
  sybil_loop node_id ip skills [] s = s
  sybil_loop node_id ip skills (other_id ∷ others) s =
      let same = elim (lookup other_id s.scores) as (λ x. Bool) [
        | none ↦ false
        | some other ↦ have_identical_capabilities skills other.skills
      ] in
      sybil_loop node_id ip skills others (
        if other_id == node_id
        then s
        else if same
        then record s {
          metadata = update_key node_id (flag (same_capabilities other_id ip)) s.metadata;
        }
        else s)

  unfoldable pub check_sybil_detection : ℕ → ℕ → List ℕ → Manager R → Manager R
  check_sybil_detection node_id ip nodes s =
      if ltb (length nodes) 2 then s else elim (lookup node_id s.scores) [
        | none ↦ s
        | some current ↦ sybil_loop node_id ip current.skills nodes s
      ]

  abbrev pub nodes_on : ℕ → Manager R → List ℕ
  nodes_on ip s = elim (lookup ip s.ip_registry) [ none ↦ [] | some nodes ↦ nodes ]

  unfoldable pub register_ip : ℕ → ℕ → Manager R → Manager R
  register_ip node_id ip s =
      let nodes = include node_id (nodes_on ip s) in
      check_sybil_detection node_id ip nodes
        (record s { ip_registry = insert ip nodes s.ip_registry })

  -- An address of 0 is a missing one.
  unfoldable pub initialize_node : ℕ → ℕ → ℕ → Manager R → Manager R
  initialize_node node_id ip now s =
      let s' = record s {
        scores = insert node_id (new_score node_id now) s.scores;
        metadata = insert node_id (new_metadata ip now) s.metadata;
      } in
      if ip == 0 then s' else register_ip node_id ip s'

  -- What the methods do first: a node without a score is initialised.
  unfoldable pub ensure : ℕ → ℕ → Manager R → Manager R
  ensure node_id now s = elim (lookup node_id s.scores) [
    | none ↦ initialize_node node_id 0 now s
    | some _ ↦ s
  ]

  unfoldable pub register_node_ip : ℕ → ℕ → ℕ → Manager R → Manager R
  register_node_ip node_id ip now s = elim (lookup node_id s.scores) [
    | none ↦ initialize_node node_id ip now s
    | some _ ↦ elim (lookup node_id s.metadata) [
      | none ↦ s
      | some meta ↦ register_ip node_id ip (record s {
        ip_registry =
            if meta.ip_address == 0
            then s.ip_registry
            else update_key meta.ip_address (exclude node_id) s.ip_registry;
        metadata = insert node_id (record meta { ip_address = ip }) s.metadata;
      })
    ]
  ]

  -- Math.min(stake / 100000, 1) and the weighted sum
  unfoldable pub calculate_overall : ReputationScore R → R
  calculate_overall score =
      let stake_weight = at_most (num.lit 1 1) (num.div score.stake_amount (num.lit 100000 1)) in
      clamp (
        num.add
          (num.add
            (num.add (num.mul score.success_rate (num.lit 30 100))
              (num.mul score.avg_quality (num.lit 25 100)))
            (num.mul score.reliability (num.lit 25 100)))
          (num.mul stake_weight (num.lit 20 100)))
