-- ===== src/Consensus.antt =====
-- src/consensus/engine.ts, class ConsensusEngine. Identifiers, texts and times are numbers; round and
-- worker identifiers, which the source draws at random, are arguments. The callback of `setTimeout`
-- is the event `expire`, and the wait of proposeVerification splits it in two. Reputations are in
-- hundredths, without the rounding of binary fractions.
pub mod Rounds
pub mod Quorum
pub mod Weakness
pub mod Sequence
use abundance_protocol.Prelude.{
  ℕ, suc, ◌+◌, ◌-◌, ◌*◌, ◌/◌, Bool, true, false, not, Option, none, some, List, [], ◌∷◌, ◌++◌, ltb,
  leb, ◌==◌, if◌then◌else◌, length, select, map,
}
use abundance_protocol.Registry.{update_key}
use abundance_protocol.Dict.{Dict, lookup, insert, has}

pub record Vote : Type 0 where
  pub node_id : ℕ
  pub approve : Bool
  pub timestamp : ℕ

pub data RoundStatus : Type 0 where
  pending passed failed : RoundStatus

-- `failure_reason` is set or not; the one reason is 'timeout'
pub record BftRound : Type 0 where
  pub round_id : ℕ
  pub task_id : ℕ
  pub total_nodes : ℕ
  pub f : ℕ
  pub quorum : ℕ
  pub status : RoundStatus
  pub proposal : ℕ
  pub votes : List Vote
  pub timed_out : Bool

pub record Engine : Type 0 where
  pub dag_mempool : Dict (List ℕ)
  pub round : ℕ
  pub nodes : List ℕ
  pub bft_rounds : Dict BftRound
  pub reputation_scores : Dict ℕ

-- `score` is approving votes over all votes, and 0 / 0 stands for the 0 of an empty round; in
-- single-node mode it is 1 / 1 and there is no round
pub record VerificationResult : Type 0 where
  pub verified : Bool
  pub approving : ℕ
  pub total : ℕ
  pub dissenter_count : ℕ
  pub reputation_penalties : List ℕ
  pub round_id : Option ℕ

-- `x || d` on numbers
abbrev pub or_else : ℕ → ℕ → ℕ
or_else x d = if x == 0 then d else x

-- r.votes.filter(v => v.approve).length
abbrev pub approvals : List Vote → ℕ
approvals votes = length (select (λ v. v.approve) votes)

-- the record that createRound builds for `n` nodes
unfoldable pub new_round : ℕ → ℕ → ℕ → ℕ → BftRound
new_round n new_id task_id proposal = record {
  round_id = new_id;
  task_id = task_id;
  total_nodes = n;
  f = (n - 1) / 3;
  quorum = 2 * ((n - 1) / 3) + 1;
  status = pending;
  proposal = proposal;
  votes = [];
  timed_out = false;
}

unfoldable pub create_round : ℕ → ℕ → ℕ → Engine → BftRound × Engine
unfolding new_round
create_round new_id task_id proposal s =
    let r = new_round (or_else (length s.nodes) 5) new_id task_id proposal in
    (r, record s { bft_rounds = insert new_id r s.bft_rounds })

abbrev pub is_pending : RoundStatus → Bool
is_pending pending = true
is_pending _ = false

-- the callback that createRound schedules
unfoldable pub time_out : BftRound → BftRound
time_out r = if is_pending r.status then record r { status = failed; timed_out = true } else r

-- the body of receiveVote on the round that it finds
unfoldable pub add_vote : ℕ → Bool → ℕ → BftRound → BftRound
add_vote node approve now r =
    let votes = r.votes ++ record { node_id = node; approve = approve; timestamp = now } ∷ [] in
    record r { votes = votes; status = if leb r.quorum (approvals votes) then passed else r.status }

unfoldable pub expire : ℕ → Engine → Engine
expire i s = record s { bft_rounds = update_key i time_out s.bft_rounds }

unfoldable pub receive_vote : ℕ → ℕ → Bool → ℕ → Engine → Engine
receive_vote i node approve now s = record s {
  bft_rounds = update_key i (add_vote node approve now) s.bft_rounds;
}

unfoldable pub get_round : Engine → ℕ → Option BftRound
get_round s i = lookup i s.bft_rounds

unfoldable pub is_quorum_reached : Engine → ℕ → Bool
is_quorum_reached s i = elim (lookup i s.bft_rounds) [
  | none ↦ false
  | some r ↦ ltb r.f (approvals r.votes)
]

-- this.reputationScores.get(nodeId) ?? 0.5
abbrev pub reputation_in : Dict ℕ → ℕ → ℕ
reputation_in scores node = elim (lookup node scores) [ none ↦ 50 | some x ↦ x ]

unfoldable pub get_reputation : Engine → ℕ → ℕ
get_reputation s node = reputation_in s.reputation_scores node

-- the loop over the dissenters: Math.max(0, currentRep - 0.05) for each
unfoldable pub penalise : List Vote → Dict ℕ → Dict ℕ
penalise [] scores = scores
penalise (v ∷ vs) scores =
    penalise vs (insert v.node_id (reputation_in scores v.node_id - 5) scores)

-- proposeVerification up to its wait: the single-node answer, or the round that is waited for
unfoldable pub verification_begin : ℕ → ℕ → ℕ → ℕ → Engine → Option VerificationResult × Engine
verification_begin verify_id new_id result_hash min_peers s =
    if ltb (or_else (length s.nodes) 1) min_peers
    then (some single, s)
    else (none, (create_round new_id verify_id result_hash s).1)
  where
    single : VerificationResult
    single = record {
      verified = true;
      approving = 1;
      total = 1;
      dissenter_count = 0;
      reputation_penalties = [];
      round_id = none;
    }

-- proposeVerification after its wait, on the round that it holds
unfoldable pub verification_end : BftRound → Engine → VerificationResult × Engine
unfolding penalise
verification_end r s = (
  record {
    verified = leb r.quorum (approvals r.votes);
    approving = approvals r.votes;
    total = length r.votes;
    dissenter_count = length dissenters;
    reputation_penalties = map (λ v. v.node_id) dissenters;
    round_id = some r.round_id;
  },
  record s { reputation_scores = penalise dissenters s.reputation_scores },
)
  where
    dissenters : List Vote
    dissenters = select (λ v. not v.approve) r.votes

-- A proof is its task's identifier, which is all that is read of it.
unfoldable pub submit_proof : ℕ → ℕ → Engine → Engine
submit_proof worker task s =
    let m = if has worker s.dag_mempool then s.dag_mempool else insert worker [] s.dag_mempool in
    record s { dag_mempool = update_key worker (λ b. b ++ task ∷ []) m }

unfoldable pub concat_batches : Dict (List ℕ) → List ℕ
concat_batches [] = []
concat_batches ((_, b) ∷ m) = b ++ concat_batches m

unfoldable pub bullshark_sequence : Engine → List ℕ × Engine
unfolding concat_batches
bullshark_sequence s =
    (concat_batches s.dag_mempool, record s { round = s.round + 1; dag_mempool = [] })
