-- ===== src/Dao/CommitReveal/Reveal.antt =====
-- What a commitment shows later.
use mathlib.Core.Path.{subst}
use abundance_protocol.Prelude.{
  ℕ, ◌≡◌, refl, Bool, true, false, some, List, [], ◌∷◌, ◌==◌, All, ◌≢◌, none, arith, inl, inr,
  Bool-cases,
}
use abundance_protocol.Dict.{lookup, insert, lookup-insert, lookup-insert_self}
use abundance_protocol.Result.{Result, ok}
use abundance_protocol.Dao.CommitReveal.{
  Payload, proposal, vote, timestamp_of, CommitRecord, CommitError, Written, returns, refused,
  breaks_off, Folder, write, hash_proposal, hash_vote, commit_proposal, commit_vote, recomputed,
  verify_commit, get_commit,
}

pub data Commitment : Type 0 where
  proposes : Written → ℕ → ℕ → ℕ → ℕ → ℕ → ℕ → Commitment
  votes : Written → ℕ → ℕ → Bool → ℕ → Commitment

module _ (sha : Payload → ℕ) where
  abbrev pub commit : Commitment → Folder → Result CommitError CommitRecord × Folder
  commit (proposes written dao_id title action target user_id now) files =
      commit_proposal sha written dao_id title action target user_id now files
  commit (votes written prop_id voter_key support now) files =
      commit_vote sha written prop_id voter_key support now files

  abbrev pub commit_all : List Commitment → Folder → Folder
  commit_all [] files = files
  commit_all (c ∷ cs) files = commit_all cs (commit c files).1

  -- A write of the hash that breaks off leaves no record.
  abbrev pub SparesBy : Written → ℕ → ℕ → Type 0
  SparesBy breaks_off written_hash hash = written_hash ≢ hash
  SparesBy _ written_hash hash = Unit

  -- The commitment does not break off the write of that hash.
  abbrev pub Spares : ℕ → Commitment → Type 0
  Spares hash (proposes written dao_id title action target user_id now) =
      SparesBy written (sha (proposal dao_id title action target user_id now)) hash
  Spares hash (votes written prop_id voter_key support now) =
      SparesBy written (sha (vote prop_id voter_key support now)) hash

  -- A record that was made of its payload.
  abbrev pub IsMade : CommitRecord → Type 0
  IsMade r = (r.commit_hash ≡ sha r.payload) × (r.timestamp ≡ timestamp_of r.payload)

  -- The file of a hash holds a record with that hash.
  pub record HasCommit (hash : ℕ) (files : Folder) : Type 0 where
    pub stored : CommitRecord
    pub found : lookup hash files ≡ some (some stored)
    pub named : stored.commit_hash ≡ hash
    pub made : IsMade stored

  write-HasCommit :
      (hash : ℕ) (written : Written) (r : CommitRecord) (files : Folder)
      → IsMade r
      → SparesBy written r.commit_hash hash
      → HasCommit hash files
      → HasCommit hash (write sha written r files).1
  write-HasCommit hash refused r files m spared h = h
  write-HasCommit hash breaks_off r files m spared h = record {
    stored = h.stored;
    found = ground (arith, h.found, spared, lookup-insert hash r.commit_hash none files);
    named = h.named;
    made = h.made;
  }
  write-HasCommit hash returns r files m spared h = elim (Bool-cases (r.commit_hash == hash)) [
    | inl same ↦ record {
      stored = r;
      found = ground (arith, same, lookup-insert hash r.commit_hash (some r) files);
      named = ground (arith, same);
      made = m;
    }
    | inr other ↦ record {
      stored = h.stored;
      found = ground (arith, other, h.found, lookup-insert hash r.commit_hash (some r) files);
      named = h.named;
      made = h.made;
    }
  ]

  commit-HasCommit :
      (hash : ℕ) (c : Commitment) (files : Folder)
      → Spares hash c
      → HasCommit hash files
      → HasCommit hash (commit c files).1
  unfolding commit_proposal commit_vote hash_proposal hash_vote
  commit-HasCommit hash (proposes written d t a g u now) files spared h =
      write-HasCommit hash written _ files (refl, refl) spared h
  commit-HasCommit hash (votes written p k b now) files spared h =
      write-HasCommit hash written _ files (refl, refl) spared h

  commit_all-HasCommit :
      (hash : ℕ) (cs : List Commitment) (files : Folder)
      → All (Spares hash) cs
      → HasCommit hash files
      → HasCommit hash (commit_all cs files)
  commit_all-HasCommit hash [] files spared h = h
  commit_all-HasCommit hash (c ∷ cs) files spared h =
      commit_all-HasCommit hash cs (commit c files).1 spared.1
        (commit-HasCommit hash c files spared.0 h)

  write-makes :
      (written : Written) (w r : CommitRecord) (files : Folder)
      → IsMade w
      → (write sha written w files).0 ≡ ok r
      → IsMade r × HasCommit r.commit_hash (write sha written w files).1
  write-makes refused w r files m e = cc
  write-makes breaks_off w r files m e = cc
  write-makes returns w r files m e =
      let same : w ≡ r = cc in
      let there = lookup-insert_self w.commit_hash (some w) files in
      subst (λ x. IsMade x × HasCommit x.commit_hash (insert w.commit_hash (some w) files)) same
        (m, record { stored = w; found = there; named = refl; made = m })

  commit-makes :
      (c : Commitment) (files : Folder) (r : CommitRecord)
      → (commit c files).0 ≡ ok r
      → IsMade r × HasCommit r.commit_hash (commit c files).1
  unfolding commit_proposal commit_vote hash_proposal hash_vote
  commit-makes (proposes written d t a g u now) files r e =
      write-makes written _ r files (refl, refl) e
  commit-makes (votes written p k b now) files r e = write-makes written _ r files (refl, refl) e

  recomputed_lem : (p : Payload) → recomputed sha p ≡ sha p
  unfolding hash_proposal hash_vote
  recomputed_lem (proposal _ _ _ _ _ _) = refl
  recomputed_lem (vote _ _ _ _) = refl

  reveals :
      (hash : ℕ) (payload : Payload) (files : Folder)
      → HasCommit hash files
      → verify_commit sha hash payload files ≡ true
  unfolding verify_commit
  reveals hash payload files h =
      rw (h.found, verify_commit)
        (ground (arith, recomputed_lem h.stored.payload, h.made.0, h.made.1))

  -- A file whose hash is not that of its payload.
  forged_refused :
      (hash : ℕ) (payload : Payload) (forged : CommitRecord) (files : Folder)
      → (forged.commit_hash == sha forged.payload) ≡ false
      → verify_commit sha hash payload (insert hash (some forged) files) ≡ false
  unfolding verify_commit
  forged_refused hash payload forged files h =
      rw (lookup-insert_self hash (some forged) files, verify_commit)
        (ground (arith, recomputed_lem forged.payload, h))

  -- A commitment that was written verifies from then on, whatever is committed later, unless a later write
  -- of the same hash breaks off after it has opened the file; and the record found under its hash has that
  -- hash, which is the hash of the record's payload. Where the file is replaced by a record whose hash is not
  -- that of its payload, it does not verify any more.
  pub verify_commit-commit :
      (c : Commitment) (cs : List Commitment) (files : Folder) (r forged : CommitRecord)
      (payload : Payload)
      → (commit c files).0 ≡ ok r
      → All (Spares r.commit_hash) cs
      → (forged.commit_hash == sha forged.payload) ≡ false
      → (verify_commit sha r.commit_hash payload (commit_all cs (commit c files).1) ≡ true)
        × (verify_commit sha r.commit_hash payload
              (insert r.commit_hash (some forged) (commit_all cs (commit c files).1))
            ≡ false)
        × ((stored : CommitRecord) × (get_commit r.commit_hash (commit_all cs (commit c files).1)
              ≡ some stored)
            × (stored.commit_hash ≡ r.commit_hash)
            × (sha stored.payload ≡ sha r.payload))
  unfolding get_commit
  verify_commit-commit c cs files r forged payload e spared false_hash =
      let (made, first) = commit-makes c files r e in
      let later = commit_all cs (commit c files).1 in
      let h = commit_all-HasCommit r.commit_hash cs (commit c files).1 spared first in
      let same : sha h.stored.payload ≡ sha r.payload = ground (arith, h.made.0, h.named, made.0) in
      (
        reveals r.commit_hash payload _ h,
        forged_refused r.commit_hash payload forged later false_hash,
        (h.stored, rw (h.found, get_commit) refl, h.named, same),
      )
