-- ===== src/Consensus/Rounds.antt =====
-- What holds of every round of the engine, whatever votes and timeouts come in whatever order.
use abundance_protocol.Registry.{update_key-Every}
use abundance_protocol.Prelude.{
  ltb, Bool-cases, ℕ, ◌+◌, ◌*◌, ◌≤◌, ◌≡◌, Bool, true, inl, inr, List, [], ◌∷◌, ◌++◌, arith, length,
}
use abundance_protocol.Dict.{Every, Every-insert}
use abundance_protocol.Consensus.{
  or_else, Vote, passed, failed, BftRound, Engine, approvals, new_round, create_round, time_out,
  add_vote, expire, receive_vote, verification_begin, verification_end, submit_proof,
  bullshark_sequence,
}

-- Events of the engine: calls of its methods, and timers.
pub data Event : Type 0 where
  proposes : ℕ → ℕ → ℕ → Event
  votes : ℕ → ℕ → Bool → ℕ → Event
  expires : ℕ → Event
  begins : ℕ → ℕ → ℕ → ℕ → Event
  ends : BftRound → Event
  submits : ℕ → ℕ → Event
  sequences : Event

unfoldable pub handle : Event → Engine → Engine
handle (proposes i task proposal) s = (create_round i task proposal s).1
handle (votes i node approve now) s = receive_vote i node approve now s
handle (expires i) s = expire i s
handle (begins v i hash peers) s = (verification_begin v i hash peers s).1
handle (ends r) s = (verification_end r s).1
handle (submits worker task) s = submit_proof worker task s
handle sequences s = (bullshark_sequence s).1

unfoldable pub run : List Event → Engine → Engine
run [] s = s
run (e ∷ es) s = run es (handle e s)

-- `quorum` is 2f + 1 of at least 3f + 1 nodes, and the status says whether that many votes approve:
-- a round passes exactly when they do, and only a round that is marked so has timed out.
pub record IsSound (r : BftRound) : Type 0 where
  pub quorate : r.quorum ≡ 2 * r.f + 1
  pub enough : 3 * r.f + 1 ≤ r.total_nodes
  pub passed_approved : r.status ≡ passed → r.quorum ≤ approvals r.votes
  pub approved_passed : r.quorum ≤ approvals r.votes → r.status ≡ passed
  pub failed_timed_out : r.status ≡ failed → r.timed_out ≡ true

abbrev pub IsValid : Engine → Type 0
IsValid s = Every (λ _ r. IsSound r) s.bft_rounds

new_round-IsSound : (n i t p : ℕ) → 1 ≤ n → IsSound (new_round n i t p)
unfolding new_round
new_round-IsSound n i t p h = ground arith

time_out-IsSound : (r : BftRound) → IsSound r → IsSound (time_out r)
unfolding time_out
time_out-IsSound r v = ground arith

approvals-append : (vs : List Vote) (v : Vote) → approvals vs ≤ approvals (vs ++ v ∷ [])
approvals-append [] v = ground arith
approvals-append (w ∷ vs) v = ground (arith, approvals-append vs v)

add_vote-IsSound :
    (node : ℕ) (approve : Bool) (now : ℕ) (r : BftRound)
    → IsSound r
    → IsSound (add_vote node approve now r)
unfolding add_vote
add_vote-IsSound node approve now r v = ground (
  arith,
  approvals-append r.votes (record { node_id = node; approve = approve; timestamp = now }),
)

create_round-IsValid :
    (i task proposal : ℕ) (s : Engine) → IsValid s → IsValid (create_round i task proposal s).1
unfolding create_round
create_round-IsValid i task proposal s v =
    Every-insert i _ s.bft_rounds v (new_round-IsSound _ i task proposal (ground arith))

begins-IsValid :
    (w i hash peers : ℕ) (s : Engine) → IsValid s → IsValid (verification_begin w i hash peers s).1
unfolding verification_begin
begins-IsValid w i hash peers s v = elim (Bool-cases (ltb (or_else (length s.nodes) 1) peers)) [
  | inl few ↦ rw few v
  | inr many ↦ rw many (create_round-IsValid i w hash s v)
]

-- Every event keeps every round sound: the thresholds fit the number of nodes, and a round has
-- passed exactly when at least `quorum` of its votes approve.
pub handle-IsValid : (e : Event) (s : Engine) → IsValid s → IsValid (handle e s)
unfolding handle receive_vote expire verification_end submit_proof bullshark_sequence
handle-IsValid (proposes i task proposal) s v = create_round-IsValid i task proposal s v
handle-IsValid (votes i node approve now) s v =
    update_key-Every i (add_vote node approve now) s.bft_rounds v
      (add_vote-IsSound node approve now)
handle-IsValid (expires i) s v = update_key-Every i time_out s.bft_rounds v time_out-IsSound
handle-IsValid (begins w i hash peers) s v = begins-IsValid w i hash peers s v
handle-IsValid (ends r) s v = v
handle-IsValid (submits worker task) s v = v
handle-IsValid sequences s v = v

pub run-IsValid : (es : List Event) (s : Engine) → IsValid s → IsValid (run es s)
unfolding run
run-IsValid [] s v = v
run-IsValid (e ∷ es) s v = run-IsValid es (handle e s) (handle-IsValid e s v)
