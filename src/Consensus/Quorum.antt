-- ===== src/Consensus/Quorum.antt =====
-- The thresholds of a round, what a passed round keeps, and the bookkeeping beside the votes.
use abundance_protocol.Registry.{update_key-keep}
use abundance_protocol.Prelude.{
  ltb, Bool-cases, ◌==◌, lt→ltb, ◌↔◌, ℕ, ◌+◌, ◌*◌, ◌-◌, ◌≤◌, ◌<◌, ◌≡◌, ◌≢◌, Bool, true, inl, inr,
  some, List, [], ◌∷◌, arith, length, if◌then◌else◌,
}
use abundance_protocol.Dict.{Dict, lookup, insert, lookup-insert}
use abundance_protocol.Consensus.{
  or_else, Vote, passed, BftRound, Engine, approvals, new_round, create_round, time_out, add_vote,
  expire, receive_vote, verification_begin, verification_end, submit_proof, bullshark_sequence,
  is_quorum_reached, penalise, reputation_in,
}
use abundance_protocol.Consensus.Rounds.{
  IsSound, Event, handle, proposes, votes, expires, begins, ends, submits, sequences,
}

-- Two sets of `quorum` nodes out of n share at least 2 * quorum - n. That is more than the f nodes
-- that may be faulty exactly when n = 3f + 1.
quorum_overlap :
    (n i t p : ℕ)
    → 1 ≤ n
    → let r = new_round n i t p in (r.total_nodes + r.f < 2 * r.quorum) ↔ (n ≡ 3 * r.f + 1)
unfolding new_round
quorum_overlap n i t p h = ground arith

-- isQuorumReached says yes to a round whose approvals exceed f and stay below its quorum of 2f + 1,
-- and such a round has not passed.
is_quorum_reached_early :
    (s : Engine) (i : ℕ) {r : BftRound}
    → lookup i s.bft_rounds ≡ some r
    → IsSound r
    → r.f < approvals r.votes
    → approvals r.votes < r.quorum
    → (is_quorum_reached s i ≡ true) × (r.status ≢ passed)
unfolding is_quorum_reached
is_quorum_reached_early s i {r} found v above below =
    (rw (found, is_quorum_reached) (lt→ltb r.f _ above), λ e. omega (arith, v.passed_approved e))

-- The events that make a round of identifier i.
abbrev pub Makes : ℕ → Event → Type 0
Makes i (proposes j _ _) = i ≡ j
Makes i (begins _ j _ _) = i ≡ j
Makes i _ = ⊥

abbrev pub HasPassed : ℕ → Engine → Type 0
HasPassed i s = (r : BftRound) × (lookup i s.bft_rounds ≡ some r) × (r.status ≡ passed)

create_round-HasPassed :
    (i j task p : ℕ) (s : Engine) → i ≢ j → HasPassed i s → HasPassed i (create_round j task p s).1
unfolding create_round
create_round-HasPassed i j task p s other (r, found, done) = (
  r,
  ground (
    arith,
    found,
    lookup-insert i j (new_round (or_else (length s.nodes) 5) j task p) s.bft_rounds,
  ),
  done,
)

begins-HasPassed :
    (i w j hash peers : ℕ) (s : Engine)
    → i ≢ j
    → HasPassed i s
    → HasPassed i (verification_begin w j hash peers s).1
unfolding verification_begin
begins-HasPassed i w j hash peers s other h =
    elim (Bool-cases (ltb (or_else (length s.nodes) 1) peers)) [
      | inl few ↦ rw few h
      | inr many ↦ rw many (create_round-HasPassed i j w hash s other h)
    ]

add_vote_passed :
    (node : ℕ) (approve : Bool) (now : ℕ) (r : BftRound)
    → r.status ≡ passed
    → (add_vote node approve now r).status ≡ passed
unfolding add_vote
add_vote_passed node approve now r h = ground arith

time_out_passed : (r : BftRound) → r.status ≡ passed → (time_out r).status ≡ passed
unfolding time_out
time_out_passed r h = ground arith

-- A round that has passed stays so, through any events that do not make a round of its identifier.
pub handle-HasPassed :
    (i : ℕ) (e : Event) (s : Engine) → ¬ Makes i e → HasPassed i s → HasPassed i (handle e s)
unfolding handle verification_end submit_proof bullshark_sequence receive_vote expire
handle-HasPassed i (proposes j task p) s other h = create_round-HasPassed i j task p s other h
handle-HasPassed i (votes j node approve now) s other h =
    update_key-keep j (add_vote node approve now) s.bft_rounds (add_vote_passed node approve now) i
      h.1 h.2
handle-HasPassed i (expires j) s other h =
    update_key-keep j time_out s.bft_rounds time_out_passed i h.1 h.2
handle-HasPassed i (begins w j hash peers) s other h = begins-HasPassed i w j hash peers s other h
handle-HasPassed i (ends r) s other h = h
handle-HasPassed i (submits w t) s other h = h
handle-HasPassed i sequences s other h = h

abbrev pub times : ℕ → List Vote → ℕ
times node [] = 0
times node (v ∷ vs) = (if v.node_id == node then 1 else 0) + times node vs

-- The loop over dissenting votes takes 5 hundredths from a node for each of its votes in the list,
-- stopping at 0, and nothing from any other node.
penalise_lem :
    (node : ℕ) (vs : List Vote) (scores : Dict ℕ)
    → reputation_in (penalise vs scores) node ≡ reputation_in scores node - 5 * times node vs
unfolding penalise
penalise_lem node [] scores = omega arith
penalise_lem node (v ∷ vs) scores = ground (
  arith,
  penalise_lem node vs (insert v.node_id (reputation_in scores v.node_id - 5) scores),
  lookup-insert node v.node_id (reputation_in scores v.node_id - 5) scores,
)
