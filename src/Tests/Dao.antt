-- ===== src/Tests/Dao.antt =====
-- A vote that is committed before another one and a proposal.
use abundance_protocol.Prelude.{ℕ, ◌+◌, ◌*◌, ◌≡◌, refl, some, List, [], ◌∷◌, true, false, arith}
use abundance_protocol.Dict.{insert}
use abundance_protocol.Dao.CommitReveal.{
  Folder, returns, refused, breaks_off, hash_vote, commit_vote, Payload, proposal, vote,
  CommitRecord, verify_commit, get_commit,
}
use abundance_protocol.Dao.CommitReveal.Reveal.{
  Commitment, proposes, votes, commit, commit_all, verify_commit-commit,
}

abbrev digest_of : Payload → ℕ
digest_of (proposal a b c d e t) = 2 * (a + b + c + d + e + t)
digest_of (vote a b support t) = 2 * (a + b + t) + 1

abbrev first_vote : CommitRecord
first_vote = record { commit_hash = 27; timestamp = 10; payload = vote 1 2 true 10 }

abbrev later_commits : List Commitment
later_commits =
    votes returns 1 3 false 11
    ∷ proposes breaks_off 1 2 3 4 5 12
    ∷ proposes refused 1 2 3 4 5 13
    ∷ []

abbrev forged_vote : CommitRecord
forged_vote = record { commit_hash = 27; timestamp = 10; payload = vote 1 5 true 10 }

abbrev committed : Folder
committed = commit_all digest_of later_commits (commit digest_of (votes returns 1 2 true 10) []).1

verify_commit-commit_example :
    (verify_commit digest_of 27 (vote 9 9 false 9) committed ≡ true)
    × (verify_commit digest_of 27 (vote 9 9 false 9) (insert 27 (some forged_vote) committed)
        ≡ false)
    × ((stored : CommitRecord) × (get_commit 27 committed ≡ some stored)
        × (stored.commit_hash ≡ 27)
        × (digest_of stored.payload ≡ 27))
unfolding commit_vote hash_vote
verify_commit-commit_example =
    verify_commit-commit digest_of (votes returns 1 2 true 10) later_commits [] first_vote
      forged_vote (vote 9 9 false 9) refl (tt, (λ e. omega (arith, e), (tt, tt))) refl
