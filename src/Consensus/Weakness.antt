-- ===== src/Consensus/Weakness.antt =====
-- What the guards of the engine let through.
use mathlib.Core.Path.{subst}
use abundance_protocol.Registry.{update_key_found}
use abundance_protocol.Prelude.{
  sym, ◌-◌, ap, ◌∙◌, ℕ, zero, suc, ◌+◌, ◌≤◌, ◌≡◌, refl, true, false, some, List, [], ◌∷◌, ◌++◌,
  arith, All, map, replicate, select, not,
}
use abundance_protocol.Dict.{lookup, lookup-insert_self}
use abundance_protocol.Consensus.{
  Vote, passed, BftRound, Engine, approvals, add_vote, receive_vote, verification_end,
}
use abundance_protocol.Consensus.Rounds.{votes, handle, run}

approvals-append_true :
    (vs : List Vote) (node now : ℕ)
    → approvals (vs ++ record { node_id = node; approve = true; timestamp = now } ∷ [])
      ≡ approvals vs + 1
approvals-append_true [] node now = omega arith
approvals-append_true (v ∷ vs) node now = ground (arith, approvals-append_true vs node now)

add_vote_counts :
    (node now : ℕ) (r : BftRound)
    → let w = add_vote node true now r in
      (w.quorum ≡ r.quorum)
      × (approvals w.votes ≡ approvals r.votes + 1)
      × (w.timed_out ≡ r.timed_out)
unfolding add_vote
add_vote_counts node now r = (refl, approvals-append_true r.votes node now, refl)

add_vote_passes :
    (node now : ℕ) (r : BftRound)
    → r.quorum ≤ approvals r.votes + 1
    → (add_vote node true now r).status ≡ passed
unfolding add_vote
add_vote_passes node now r h = ground (arith, approvals-append_true r.votes node now)

receive_found :
    (i node now : ℕ) (s : Engine) {r : BftRound}
    → lookup i s.bft_rounds ≡ some r
    → lookup i (handle (votes i node true now) s).bft_rounds ≡ some (add_vote node true now r)
unfolding handle receive_vote
receive_found i node now s {r} found =
    rw (update_key_found i (add_vote node true now) s.bft_rounds found)
      (lookup-insert_self i (add_vote node true now r) s.bft_rounds)

repeat_passes :
    (i node now k : ℕ) (s : Engine) {r : BftRound}
    → lookup i s.bft_rounds ≡ some r
    → r.quorum ≤ approvals r.votes + suc k
    → (x : BftRound) × (lookup i (run (replicate (suc k) (votes i node true now)) s).bft_rounds
        ≡ some x)
      × (x.status ≡ passed)
      × (x.timed_out ≡ r.timed_out)
unfolding run
repeat_passes i node now zero s {r} found enough = (
  add_vote node true now r,
  receive_found i node now s found,
  add_vote_passes node now r (omega arith),
  (add_vote_counts node now r).2,
)
repeat_passes i node now (suc k) s {r} found enough =
    let (same, one_more, kept) = add_vote_counts node now r in
    let (x, there, done, timed) =
      repeat_passes i node now k (handle (votes i node true now) s)
        (receive_found i node now s found) (omega arith) in
    (x, there, done, timed ∙ kept)

-- One node that votes yes as often as the quorum demands passes a round alone, whoever else has
-- voted, also a round that has failed by its timeout, which stays marked so.
pub one_node_passes :
    (i node now : ℕ) (s : Engine) {r : BftRound}
    → lookup i s.bft_rounds ≡ some r
    → 1 ≤ r.quorum
    → (x : BftRound) × (lookup i (run (replicate r.quorum (votes i node true now)) s).bft_rounds
        ≡ some x)
      × (x.status ≡ passed)
      × (x.timed_out ≡ r.timed_out)
one_node_passes i node now s {r} found some_needed =
    let q : r.quorum ≡ suc (r.quorum - 1) = omega arith in
    let p = repeat_passes i node now (r.quorum - 1) s found (omega arith) in
    subst
      (λ n.
        (x : BftRound) × (lookup i (run (replicate n (votes i node true now)) s).bft_rounds
          ≡ some x)
        × (x.status ≡ passed)
        × (x.timed_out ≡ r.timed_out))
      (sym q) p

abbrev Rejects : Vote → Type 0
Rejects v = v.approve ≡ false

reject_none :
    (vs : List Vote) → All Rejects vs → (select (λ v. not v.approve) vs ≡ vs) × (approvals vs ≡ 0)
reject_none [] h = (refl, refl)
reject_none (v ∷ vs) h = ground (arith, reject_none vs h.1)

-- When every vote rejects, the result is not verified, and yet every voter loses reputation, though
-- none dissents from the majority.
majority_penalised :
    (r : BftRound) (s : Engine)
    → All Rejects r.votes
    → 1 ≤ r.quorum
    → let v = (verification_end r s).0 in
      (v.verified ≡ false) × (v.reputation_penalties ≡ map (λ x. x.node_id) r.votes)
unfolding verification_end
majority_penalised r s h q =
    let (all, zero_yes) = reject_none r.votes h in (ground arith, ap (map (λ x. x.node_id)) all)
