-- ===== src/Tests/Consensus.antt =====
-- An engine of five nodes, and one round with two votes.
use abundance_protocol.Prelude.{ℕ, ◌≡◌, refl, true, false, [], ◌∷◌, arith}
use abundance_protocol.Registry.{update_key}
use abundance_protocol.Consensus.{
  Vote, pending, passed, failed, BftRound, Engine, new_round, create_round, time_out, add_vote,
  receive_vote, expire,
}
use abundance_protocol.Consensus.Rounds.{
  IsValid, proposes, votes, expires, handle, run, handle-IsValid, run-IsValid,
}

abbrev vote : ℕ → Vote
vote n = record { node_id = n; approve = true; timestamp = 1 }

abbrev rejection : ℕ → Vote
rejection n = record { node_id = n; approve = false; timestamp = 1 }

abbrev ballot : BftRound
ballot = record {
  round_id = 4;
  task_id = 8;
  total_nodes = 5;
  f = 1;
  quorum = 3;
  status = pending;
  proposal = 6;
  votes = vote 2 ∷ vote 3 ∷ [];
  timed_out = false;
}

abbrev engine : Engine
engine = record {
  dag_mempool = [];
  round = 0;
  nodes = 1 ∷ 2 ∷ 3 ∷ 4 ∷ 5 ∷ [];
  bft_rounds = (4, ballot) ∷ [];
  reputation_scores = [];
}

abbrev empty : Engine
empty = record {
  dag_mempool = [];
  round = 0;
  nodes = 1 ∷ 2 ∷ 3 ∷ 4 ∷ 5 ∷ [];
  bft_rounds = [];
  reputation_scores = [];
}

-- The test suite's round: a proposal and two votes of five nodes.
two_votes : run (proposes 4 8 6 ∷ votes 4 2 true 1 ∷ votes 4 3 true 1 ∷ []) empty ≡ engine
unfolding run handle create_round new_round receive_vote update_key add_vote
two_votes = refl

-- ... which its timeout fails
times_out :
    (run (expires 4 ∷ []) engine).bft_rounds
    ≡ (4, record ballot { status = failed; timed_out = true }) ∷ []
unfolding run handle expire update_key time_out
times_out = refl

engine-IsValid : IsValid engine
unfolding run handle create_round new_round receive_vote update_key add_vote
engine-IsValid =
    run-IsValid (proposes 4 8 6 ∷ votes 4 2 true 1 ∷ votes 4 3 true 1 ∷ []) empty
      (λ k v e. absurd (ground arith))

handle-IsValid_example : IsValid (handle (votes 4 5 true 2) engine)
handle-IsValid_example = handle-IsValid (votes 4 5 true 2) engine engine-IsValid

abbrev decided : Engine
decided = record engine { bft_rounds = (4, record ballot { status = passed }) ∷ [] }

abbrev rejected : BftRound
rejected = record ballot { votes = rejection 2 ∷ rejection 3 ∷ [] }
