-- ===== src/Governance/Voting/Cast.antt =====
-- What a vote changes (src/governance/engine.ts: castVote).
use abundance_protocol.Prelude.{ℕ, ◌≡◌, Bool, some, inl, inr, Option, arith, Option-cases}
use abundance_protocol.Dict.{lookup, insert}
use abundance_protocol.Result.{ok}
use abundance_protocol.Governance.{Numbers, Proposal, Engine}
use abundance_protocol.Governance.Voting.{place_vote, cast_vote}

-- What a vote that goes through has changed: one vote of one proposal in the voting phase.
pub cast_vote-ok :
    {R : Type 0} (num : Numbers R) (i voter : ℕ) (d : Bool) (balance : R) (total : Option R)
    (now : ℕ) (s s' : Engine R) {power : R} {capped : Bool}
    → cast_vote num i voter d balance total now s ≡ ok ((power, capped), s')
    → (p : Proposal R) × (lookup i s.proposals ≡ some p)
      × (s'.config ≡ s.config)
      × (s'.proposals
          ≡ insert i
              (place_vote num voter
                (record { power = power; direction = d; timestamp = now; raw_balance = balance })
                p)
              s.proposals)
unfolding cast_vote
cast_vote-ok num i voter d balance total now s s' e = elim (Option-cases (lookup i s.proposals)) [
  | inl missing ↦ absurd (ground (arith, missing))
  | inr (p, found) ↦ (p, found, ground (arith, found), ground (arith, found))
]
