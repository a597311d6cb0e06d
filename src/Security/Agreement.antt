-- ===== src/Security/Agreement.antt =====
-- src/security/networkHardening.ts, class ConsensusHardening: its state and operations. Identifiers and
-- texts are numbers; the events that are emitted stay out.
pub mod Votes
pub mod Views
pub mod Geography
use abundance_protocol.Prelude.{
  ℕ, zero, suc, ◌+◌, ◌-◌, ◌%◌, Bool, true, false, not, Option, none, some, List, [], ◌∷◌, ◌++◌, ltb,
  leb, ◌==◌, if◌then◌else◌, length, select, get_elem?,
}
use abundance_protocol.Dict.{Dict, lookup, insert}
use abundance_protocol.Security.Window.{is_recent}

pub record VoteRecord : Type 0 where
  pub round_id : ℕ
  pub vote : ℕ
  pub timestamp : ℕ
  pub signature : ℕ

-- A vote as it is checked: `timestamp` and `signature` may be missing.
pub record Ballot : Type 0 where
  pub round_id : ℕ
  pub vote : ℕ
  pub timestamp : Option ℕ
  pub signature : Option ℕ

pub record ConsensusHardening : Type 0 where
  pub vote_history : Dict (Dict VoteRecord)
  pub view_change_history : List ℕ
  pub leader_history : List ℕ

abbrev pub votes_of : ℕ → ConsensusHardening → Dict VoteRecord
votes_of node_id s = elim (lookup node_id s.vote_history) [ none ↦ [] | some votes ↦ votes ]

-- `value || other`
abbrev pub or_else : Option ℕ → ℕ → ℕ
or_else none other = other
or_else (some n) other = if n == 0 then other else n

abbrev pub recorded : ℕ → Ballot → VoteRecord
recorded now ballot = record {
  round_id = ballot.round_id;
  vote = ballot.vote;
  timestamp = or_else ballot.timestamp now;
  signature = or_else ballot.signature 0;
}

-- The evidence of a double vote: the vote of before and the new one.
abbrev pub Evidence : Type 0
Evidence = VoteRecord × Ballot

-- The loop over the votes, which ends at the first that contradicts a recorded one.
unfoldable pub check_votes : ℕ → List Ballot → Dict VoteRecord → Option Evidence × Dict VoteRecord
check_votes now [] votes = (none, votes)
check_votes now (ballot ∷ ballots) votes =
    let kept = check_votes now ballots votes in
    let extended = check_votes now ballots (insert ballot.round_id (recorded now ballot) votes) in
    elim (lookup ballot.round_id votes) [
      | some existing ↦
          if existing.vote == ballot.vote then kept else (some (existing, ballot), votes)
      | none ↦ extended
    ]

unfoldable pub detect_double_vote :
    ℕ → List Ballot → ℕ → ConsensusHardening → Option Evidence × ConsensusHardening
detect_double_vote node_id ballots now s =
    let r = check_votes now ballots (votes_of node_id s) in
    (r.0, record s { vote_history = insert node_id r.1 s.vote_history })

-- Returns whether the change is allowed; what is filtered out stays out also when it is not.
unfoldable pub rate_limit_view_changes : ℕ → ℕ → ℕ → ConsensusHardening → Bool × ConsensusHardening
rate_limit_view_changes max_per_window window_ms now s =
    let history = select (is_recent window_ms now) s.view_change_history in
    if leb max_per_window (length history)
    then (false, record s { view_change_history = history })
    else (true, record s { view_change_history = history ++ (now ∷ []) })

-- Returns whether the time is valid, and the drift.
unfoldable pub validate_timestamp : ℕ → ℕ → ℕ → Bool × ℕ
validate_timestamp message_time local_time tolerance_ms =
    let drift =
      if leb local_time message_time
      then message_time - local_time
      else local_time - message_time in
    (leb drift tolerance_ms, drift)

-- `shift` where there are more than 100
abbrev pub last_hundred : List ℕ → List ℕ
last_hundred [] = []
last_hundred (leader ∷ leaders) =
    if ltb 100 (length (leader ∷ leaders)) then leaders else leader ∷ leaders

-- Returns the leader, if there is a participant. `vrf` is the number read from the HMAC of the seed and the
-- round; the proof is made of the same and stays out.
unfoldable pub select_leader_vrf :
    (ℕ → ℕ → ℕ) → ℕ → List ℕ → ℕ → ConsensusHardening → Option ℕ × ConsensusHardening
select_leader_vrf vrf round_number participants vrf_seed s =
    if length participants == 0
    then (none, s)
    else elim (get_elem? participants (vrf vrf_seed round_number % length participants)) [
      | none ↦ (none, s)
      | some leader ↦ (
        some leader,
        record s { leader_history = last_hundred (s.leader_history ++ (leader ∷ [])) },
      )
    ]

abbrev pub reverse_onto : List ℕ → List ℕ → List ℕ
reverse_onto [] acc = acc
reverse_onto (x ∷ xs) acc = reverse_onto xs (x ∷ acc)

-- how many from the front on are the leader
unfoldable pub streak : ℕ → List ℕ → ℕ
streak leader [] = 0
streak leader (x ∷ xs) = let rest = streak leader xs in if x == leader then suc rest else 0

-- Returns whether to rotate, and the length of the streak, counted from the end.
unfoldable pub enforce_leader_rotation : ℕ → ℕ → ConsensusHardening → Bool × ℕ
enforce_leader_rotation current_leader max_consecutive s =
    let count = streak current_leader (reverse_onto s.leader_history []) in
    (leb max_consecutive count, count)
