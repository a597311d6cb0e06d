-- ===== src/Manufacturing/Tracking/Trails.antt =====
-- The record of a product's checkpoints: the order of the stages, completion, hashes and actors.
use abundance_protocol.Prelude.{
  ◌<◌, include, ℕ, ◌≤◌, ◌≡◌, refl, true, false, Option, some, List, [], ◌∷◌, ◌++◌, arith, All,
  includes, includes-include, inl, inr, Option-cases,
}
use abundance_protocol.Dict.{lookup, insert, Every, Every-insert, lookup-insert_self}
use abundance_protocol.Result.{ok, is_ok, Result-cases}
use abundance_protocol.Manufacturing.Tracking.{
  SupplyChainStage, dispute, rank, Checkpoint, TrackingRecord, Tracker, is_dispute, is_completed,
  metadata_hash, add_checkpoint, record_checkpoint, batch_record_checkpoints, verify_checkpoint,
}

-- The stages never go back, from `lo` to `hi`.
abbrev pub Ascends : {M : Type 0} → ℕ → List (Checkpoint M) → ℕ → Type 0
Ascends lo [] hi = lo ≡ hi
Ascends lo (c ∷ cs) hi = (lo ≤ rank c.stage) × Ascends (rank c.stage) cs hi

Ascends-append :
    {M : Type 0} (lo hi : ℕ) (cs : List (Checkpoint M)) (c : Checkpoint M)
    → Ascends lo cs hi
    → hi ≤ rank c.stage
    → Ascends lo (cs ++ c ∷ []) (rank c.stage)
Ascends-append lo hi [] c h le = (omega (arith, h), refl)
Ascends-append lo hi (d ∷ cs) c (first, rest) le =
    (first, Ascends-append (rank d.stage) hi cs c rest le)

module _ {M : Type 0} (keccak : M → ℕ) where
  -- A checkpoint has the hash of its metadata, and its actor is among the participants.
  pub record IsVouched (ps : List ℕ) (c : Checkpoint M) : Type 0 where
    pub hashed : verify_checkpoint keccak c ≡ true
    pub known : includes c.actor ps ≡ true

  -- The stages go from the first to the current one and never back, the record is complete exactly
  -- when the current stage is the last one, and every checkpoint is vouched for.
  pub record IsTraced (r : TrackingRecord M) : Type 0 where
    pub ordered : Ascends 0 r.checkpoints (rank r.current_stage)
    pub finished : r.is_complete ≡ is_completed r.current_stage
    pub vouched : All (IsVouched r.participants) r.checkpoints

  IsVouched-include :
      (a : ℕ) (ps : List ℕ) (cs : List (Checkpoint M)) (c : Checkpoint M)
      → All (IsVouched ps) cs
      → IsVouched (include a ps) c
      → All (IsVouched (include a ps)) (cs ++ c ∷ [])
  IsVouched-include a ps [] c h x = (x, tt)
  IsVouched-include a ps (d ∷ cs) c (first, rest) x = (
    record {
      hashed = first.hashed;
      known = ground (arith, first.known, includes-include d.actor a ps);
    },
    IsVouched-include a ps cs c rest x,
  )

  add_checkpoint-IsTraced :
      (c : Checkpoint M) (r : TrackingRecord M)
      → IsTraced r
      → r.is_complete ≡ false
      → rank r.current_stage ≤ rank c.stage
      → verify_checkpoint keccak c ≡ true
      → IsTraced (add_checkpoint keccak c r)
  unfolding add_checkpoint
  add_checkpoint-IsTraced c r h going le hash = record {
    ordered = Ascends-append 0 (rank r.current_stage) r.checkpoints c h.ordered le;
    finished = ground (arith, going);
    vouched = IsVouched-include c.actor r.participants r.checkpoints c h.vouched (record {
      hashed = hash;
      known = ground (arith, includes-include c.actor c.actor r.participants);
    });
  }

  rank_le : (a : SupplyChainStage) → rank a ≤ 99
  rank_le a = ground arith

  rank_le_dispute : (a b : SupplyChainStage) → is_dispute b ≡ true → rank a ≤ rank b
  rank_le_dispute a b h = let last : rank b ≡ 99 = ground arith in omega (arith, last, rank_le a)

  -- what a checkpoint that is recorded has passed, and what it has changed
  record_checkpoint-ok :
      (actor product : ℕ) (stage : SupplyChainStage) (location : ℕ) (metadata : Option M)
      (now tx_hash : ℕ) (s s' : Tracker M) {n : ℕ}
      → record_checkpoint keccak actor product stage location metadata now tx_hash s ≡ ok (n, s')
      → (r : TrackingRecord M) × (c : Checkpoint M) × (lookup product s.tracking_records ≡ some r)
        × (r.is_complete ≡ false)
        × (rank r.current_stage ≤ rank stage)
        × (c.stage ≡ stage)
        × (verify_checkpoint keccak c ≡ true)
        × (s'.tracking_records ≡ insert product (add_checkpoint keccak c r) s.tracking_records)
  unfolding record_checkpoint verify_checkpoint
  record_checkpoint-ok actor product stage location metadata now tx_hash s s' e =
      elim (Option-cases (lookup product s.tracking_records)) [
        | inl missing ↦ absurd (ground (arith, missing))
        | inr (r, found) ↦
            let c : Checkpoint M = record {
              stage = stage;
              location = location;
              actor = actor;
              data_hash = metadata_hash keccak metadata;
              timestamp = now;
              metadata = metadata;
              transaction_hash = tx_hash;
            } in
            (
              r,
              c,
              found,
              ground (arith, found),
              ground (arith, found, rank_le_dispute r.current_stage stage),
              refl,
              ground arith,
              ground (arith, found),
            )
      ]

  record_checkpoint-IsTraced :
      (actor product : ℕ) (stage : SupplyChainStage) (location : ℕ) (metadata : Option M)
      (now tx_hash : ℕ) (s s' : Tracker M) {n : ℕ}
      → Every (λ _ r. IsTraced r) s.tracking_records
      → record_checkpoint keccak actor product stage location metadata now tx_hash s ≡ ok (n, s')
      → Every (λ _ r. IsTraced r) s'.tracking_records
  record_checkpoint-IsTraced actor product stage location metadata now tx_hash s s' h e =
      let (r, c, found, going, le, same, hash, there) =
        record_checkpoint-ok actor product stage location metadata now tx_hash s s' e in
      rw there (
        Every-insert product (add_checkpoint keccak c r) s.tracking_records h
          (add_checkpoint-IsTraced c r (h product r found) going (rw same le) hash))

  -- A batch keeps every record in order, whichever of its checkpoints are refused: in each record
  -- the stages go from the first to the current one and never back, the record is complete exactly
  -- when the current stage is COMPLETED, every checkpoint has the hash of its metadata, and its actor
  -- is among the participants, if all that was so before.
  pub batch_record_checkpoints-IsTraced :
      (actor : ℕ) (products : List ℕ) (stage : SupplyChainStage) (location : ℕ)
      (metadata : Option M) (now tx_hash : ℕ) (s : Tracker M)
      → Every (λ _ r. IsTraced r) s.tracking_records
      → Every
          (λ _ r. IsTraced r)
          (batch_record_checkpoints keccak actor products stage location metadata now tx_hash
            s).1.tracking_records
  unfolding batch_record_checkpoints
  batch_record_checkpoints-IsTraced actor [] stage location metadata now tx_hash s h = h
  batch_record_checkpoints-IsTraced actor (i ∷ is) stage location metadata now tx_hash s h =
      elim (Result-cases (record_checkpoint keccak actor i stage location metadata now tx_hash s)) [
        | inl ((n, s'), e) ↦
            rw (e, batch_record_checkpoints)
              (batch_record_checkpoints-IsTraced actor is stage location metadata now tx_hash s'
                (record_checkpoint-IsTraced actor i stage location metadata now tx_hash s s' h e))
        | inr (x, e) ↦
            rw (e, batch_record_checkpoints)
              (batch_record_checkpoints-IsTraced actor is stage location metadata now tx_hash s h)
      ]

  rank_lt_dispute : (a : SupplyChainStage) → is_dispute a ≡ false → rank a < 99
  rank_lt_dispute a h = ground arith

  disputed_refuses :
      (actor product : ℕ) (stage : SupplyChainStage) (location : ℕ) (metadata : Option M)
      (now tx_hash : ℕ) (s : Tracker M) {r : TrackingRecord M}
      → lookup product s.tracking_records ≡ some r
      → rank r.current_stage ≡ 99
      → is_dispute stage ≡ false
      → is_ok (record_checkpoint keccak actor product stage location metadata now tx_hash s) ≡ false
  unfolding record_checkpoint
  disputed_refuses actor product stage location metadata now tx_hash s found at ne =
      ground (arith, found, rank_lt_dispute stage ne)

  -- The tracking of a product stops at a dispute: once one is recorded, no checkpoint of any other
  -- stage is, whoever tries, since the dispute's number is above every stage's.
  pub record_dispute_last :
      (actor other product : ℕ) (stage : SupplyChainStage) (location place : ℕ)
      (metadata note : Option M) (now later tx_hash tx_hash' : ℕ) (s s' : Tracker M) {n : ℕ}
      → record_checkpoint keccak actor product dispute location metadata now tx_hash s ≡ ok (n, s')
      → is_dispute stage ≡ false
      → is_ok (record_checkpoint keccak other product stage place note later tx_hash' s') ≡ false
  unfolding add_checkpoint
  record_dispute_last actor other product stage location place metadata note now later tx_hash
        tx_hash' s s' e ne =
      let (r, c, found, going, le, same, hash, there) =
        record_checkpoint-ok actor product dispute location metadata now tx_hash s s' e in
      let r' = add_checkpoint keccak c r in
      let held : lookup product (insert product r' s.tracking_records) ≡ some r' =
        lookup-insert_self product r' s.tracking_records in
      disputed_refuses other product stage place note later tx_hash' s' {r = r'} (rw there held)
        (rw same refl) ne
