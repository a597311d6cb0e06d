-- ===== src/Security/Agreement/Votes.antt =====
-- Who is found out by a double vote, and who is not.
use abundance_protocol.Prelude.{
  ℕ, ◌≡◌, ◌≢◌, ◌⊎◌, refl, false, none, some, List, [], ◌∷◌, ◌==◌, arith, inl, inr, Option-cases,
  Bool-cases, ==_iff,
}
use abundance_protocol.Dict.{Dict, lookup, insert, lookup-insert_self, lookup-insert_ne}
use abundance_protocol.Security.Agreement.{
  VoteRecord, Ballot, ConsensusHardening, Evidence, votes_of, recorded, check_votes,
  detect_double_vote,
}

-- A node and what it is checked for, one call after the other.
abbrev pub Check : Type 0
Check = ℕ × List Ballot × ℕ

abbrev pub check_all : List Check → ConsensusHardening → ConsensusHardening
check_all [] s = s
check_all ((node_id, ballots, now) ∷ cs) s =
    check_all cs (detect_double_vote node_id ballots now s).1

-- The node's vote in the round is recorded.
abbrev pub HasVoted : ℕ → ℕ → ℕ → ConsensusHardening → Type 0
HasVoted node_id round_id vote s =
    (r : VoteRecord) × (lookup round_id (votes_of node_id s) ≡ some r) × (r.vote ≡ vote)

-- One of the ballots is for the round, with another vote.
abbrev pub Contradicts : ℕ → ℕ → List Ballot → Type 0
Contradicts round_id vote [] = ⊥
Contradicts round_id vote (b ∷ bs) =
    ((b.round_id ≡ round_id) × (b.vote ≢ vote)) ⊎ Contradicts round_id vote bs

still_there :
    (now : ℕ) (b : Ballot) (votes : Dict VoteRecord) (round_id : ℕ) (r : VoteRecord)
    → lookup round_id votes ≡ some r
    → lookup b.round_id votes ≡ none
    → lookup round_id (insert b.round_id (recorded now b) votes) ≡ some r
still_there now b votes round_id r e missing =
    let ne : b.round_id ≢ round_id = λ same. absurd (ground (arith, e, missing, same)) in
    rw (lookup-insert_ne round_id b.round_id (recorded now b) votes ne) e

keeps_vote :
    (now : ℕ) (bs : List Ballot) (votes : Dict VoteRecord) (round_id : ℕ) (r : VoteRecord)
    → lookup round_id votes ≡ some r
    → lookup round_id (check_votes now bs votes).1 ≡ some r
unfolding check_votes
keeps_vote now [] votes round_id r e = e
keeps_vote now (b ∷ bs) votes round_id r e = elim (Option-cases (lookup b.round_id votes)) [
  | inl missing ↦
      rw (missing, check_votes)
        (keeps_vote now bs (insert b.round_id (recorded now b) votes) round_id r
          (still_there now b votes round_id r e missing))
  | inr (existing, found) ↦ elim (Bool-cases (existing.vote == b.vote)) [
    | inl same ↦ rw (found, check_votes) (rw same (keeps_vote now bs votes round_id r e))
    | inr other ↦ rw (found, check_votes) (rw other e)
  ]
]

finds_out :
    (now : ℕ) (bs : List Ballot) (votes : Dict VoteRecord) (round_id : ℕ) (r : VoteRecord)
    → lookup round_id votes ≡ some r
    → Contradicts round_id r.vote bs
    → (x : Evidence) × ((check_votes now bs votes).0 ≡ some x)
unfolding check_votes
finds_out now [] votes round_id r e c = absurd c
finds_out now (b ∷ bs) votes round_id r e (inl (here, differs)) =
    let found : lookup b.round_id votes ≡ some r = rw here e in
    let other : (r.vote == b.vote) ≡ false = ground (arith, differs) in
    ((r, b), rw (found, check_votes) (rw other refl))
finds_out now (b ∷ bs) votes round_id r e (inr c) = elim (Option-cases (lookup b.round_id votes)) [
  | inl missing ↦
      rw (missing, check_votes)
        (finds_out now bs (insert b.round_id (recorded now b) votes) round_id r
          (still_there now b votes round_id r e missing) c)
  | inr (existing, found) ↦ elim (Bool-cases (existing.vote == b.vote)) [
    | inl same ↦ rw (found, check_votes) (rw same (finds_out now bs votes round_id r e c))
    | inr other ↦ ((existing, b), rw (found, check_votes) (rw other refl))
  ]
]

check-HasVoted :
    (node_id round_id vote k : ℕ) (bs : List Ballot) (now : ℕ) (s : ConsensusHardening)
    → HasVoted node_id round_id vote s
    → HasVoted node_id round_id vote (detect_double_vote k bs now s).1
unfolding detect_double_vote
check-HasVoted node_id round_id vote k bs now s (r, e, same) = elim (Bool-cases (k == node_id)) [
  | inl here ↦
      let k' : k ≡ node_id = (==_iff k node_id).0 here in
      (
        r,
        rw k' (
            rw
              (
                votes_of,
                lookup-insert_self node_id (check_votes now bs (votes_of node_id s)).1
                    s.vote_history,
              )
              (keeps_vote now bs (votes_of node_id s) round_id r e)),
        same,
      )
  | inr there ↦
      let ne : k ≢ node_id = λ x. absurd (ground (arith, there, x)) in
      (
        r,
        rw
            (
              votes_of,
              lookup-insert_ne node_id k (check_votes now bs (votes_of k s)).1 s.vote_history ne,
            )
            e,
        same,
      )
]

check_all-HasVoted :
    (node_id round_id vote : ℕ) (cs : List Check) (s : ConsensusHardening)
    → HasVoted node_id round_id vote s
    → HasVoted node_id round_id vote (check_all cs s)
check_all-HasVoted node_id round_id vote [] s h = h
check_all-HasVoted node_id round_id vote ((k, bs, now) ∷ cs) s h =
    check_all-HasVoted node_id round_id vote cs (detect_double_vote k bs now s).1
      (check-HasVoted node_id round_id vote k bs now s h)

-- A node whose vote in a round is recorded is found out as soon as it is checked with another vote for
-- that round, whichever nodes and votes have been checked in between.
pub double_vote_found :
    (node_id round_id vote : ℕ) (cs : List Check) (bs : List Ballot) (now : ℕ)
    (s : ConsensusHardening)
    → HasVoted node_id round_id vote s
    → Contradicts round_id vote bs
    → (x : Evidence) × ((detect_double_vote node_id bs now (check_all cs s)).0 ≡ some x)
unfolding detect_double_vote
double_vote_found node_id round_id vote cs bs now s h c =
    let (r, e, same) = check_all-HasVoted node_id round_id vote cs s h in
    finds_out now bs (votes_of node_id (check_all cs s)) round_id r e (rw same c)
