-- ===== src/Dao/CommitReveal.antt =====
-- Commitments to proposals and votes (src/dao/commit-reveal.ts). `sha` is sha256 of the JSON text
-- of an object; the object of a payload has the fields of what is hashed, in the same
-- order. The folder of proposals is a map from the hash in a file's name to the record in it, or `none` for
-- a file that does not parse. The `type` of a record is the form of its payload.
pub mod Reveal
use abundance_protocol.Prelude.{ℕ, Bool, true, false, Option, none, some, ◌==◌, ◌&&◌}
use abundance_protocol.Dict.{Dict, lookup, insert}
use abundance_protocol.Result.{Result, ok, err}

pub data Payload : Type 0 where
  proposal : ℕ → ℕ → ℕ → ℕ → ℕ → ℕ → Payload
  vote : ℕ → ℕ → Bool → ℕ → Payload

abbrev pub timestamp_of : Payload → ℕ
timestamp_of (proposal dao_id title action target user_id timestamp) = timestamp
timestamp_of (vote prop_id voter_key support timestamp) = timestamp

pub record CommitRecord : Type 0 where
  pub commit_hash : ℕ
  pub timestamp : ℕ
  pub payload : Payload

pub data CommitError : Type 0 where
  write_failed : CommitError

-- What becomes of writeFileSync: it returns; it throws before the file is opened; or it throws afterwards,
-- which leaves a file of that name that does not parse.
pub data Written : Type 0 where
  returns refused breaks_off : Written

abbrev pub Folder : Type 0
Folder = Dict (Option CommitRecord)

module _ (sha : Payload → ℕ) where
  unfoldable pub hash_proposal : ℕ → ℕ → ℕ → ℕ → ℕ → ℕ → ℕ
  hash_proposal dao_id title action target user_id timestamp =
      sha (proposal dao_id title action target user_id timestamp)

  unfoldable pub hash_vote : ℕ → ℕ → Bool → ℕ → ℕ
  hash_vote prop_id voter_key support timestamp = sha (vote prop_id voter_key support timestamp)

  abbrev pub write : Written → CommitRecord → Folder → Result CommitError CommitRecord × Folder
  write returns r files = (ok r, insert r.commit_hash (some r) files)
  write refused r files = (err write_failed, files)
  write breaks_off r files = (err write_failed, insert r.commit_hash none files)

  unfoldable pub commit_proposal :
      Written → ℕ → ℕ → ℕ → ℕ → ℕ → ℕ → Folder → Result CommitError CommitRecord × Folder
  commit_proposal written dao_id title action target user_id now files =
      write written
        (record {
          commit_hash = hash_proposal dao_id title action target user_id now;
          timestamp = now;
          payload = proposal dao_id title action target user_id now;
        })
        files

  unfoldable pub commit_vote :
      Written → ℕ → ℕ → Bool → ℕ → Folder → Result CommitError CommitRecord × Folder
  commit_vote written prop_id voter_key support now files =
      write written
        (record {
          commit_hash = hash_vote prop_id voter_key support now;
          timestamp = now;
          payload = vote prop_id voter_key support now;
        })
        files

  abbrev pub recomputed : Payload → ℕ
  recomputed (proposal dao_id title action target user_id timestamp) =
      hash_proposal dao_id title action target user_id timestamp
  recomputed (vote prop_id voter_key support timestamp) =
      hash_vote prop_id voter_key support timestamp

  -- The payload that is given is not read.
  unfoldable pub verify_commit : ℕ → Payload → Folder → Bool
  verify_commit commit_hash payload files = elim (lookup commit_hash files) [
    | none ↦ false
    | some none ↦ false
    | some (some stored) ↦
        (stored.commit_hash == recomputed stored.payload)
        && (stored.timestamp == timestamp_of stored.payload)
  ]

unfoldable pub get_commit : ℕ → Folder → Option CommitRecord
get_commit commit_hash files = elim (lookup commit_hash files) [
  | none ↦ none
  | some stored ↦ stored
]
