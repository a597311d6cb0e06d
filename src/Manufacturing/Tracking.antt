-- ===== src/Manufacturing/Tracking.antt =====
-- src/manufacturing/tracking.ts, class SupplyChainTracking. `keccak` is keccak256 of the JSON text of
-- the metadata, and `actor` the address of the wallet; the clock and the transaction's hash are
-- arguments. A call that throws changes nothing: its guards stand before its first assignment.
pub mod Trails
pub mod Durations
use abundance_protocol.Prelude.{
  ℕ, ◌+◌, Bool, true, false, not, Option, none, some, List, [], ◌∷◌, ◌++◌, ltb, ◌==◌, ◌&&◌,
  if◌then◌else◌, length, select, include,
}
use abundance_protocol.Prelude.Int.{ℤ, pos, ◌+ℤ◌, ◌-ℤ◌}
use abundance_protocol.Dict.{Dict, lookup, insert}
use abundance_protocol.Result.{Result, ok, err, throw_if, or_throw, ◌>>=◌, ◌>>◌}

pub data SupplyChainStage : Type 0 where
  material_sourcing raw_material_verification production_start manufacturing_progress :
      SupplyChainStage
  quality_control_1 quality_control_2 packaging warehousing shipping : SupplyChainStage
  customs_clearance in_transit delivery_confirmed completed dispute : SupplyChainStage

-- the number of the enumeration
abbrev pub rank : SupplyChainStage → ℕ
rank material_sourcing = 0
rank raw_material_verification = 1
rank production_start = 2
rank manufacturing_progress = 3
rank quality_control_1 = 4
rank quality_control_2 = 5
rank packaging = 6
rank warehousing = 7
rank shipping = 8
rank customs_clearance = 9
rank in_transit = 10
rank delivery_confirmed = 11
rank completed = 12
rank dispute = 99

-- `stageName` is a function of the stage. `Metadata` is interface CheckpointMetadata, which is only
-- hashed and stored.
pub record Checkpoint (Metadata : Type 0) : Type 0 where
  pub stage : SupplyChainStage
  pub location : ℕ
  pub actor : ℕ
  pub data_hash : ℕ
  pub timestamp : ℕ
  pub metadata : Option Metadata
  pub transaction_hash : ℕ

pub record TrackingRecord (Metadata : Type 0) : Type 0 where
  pub product_id : ℕ
  pub checkpoints : List (Checkpoint Metadata)
  pub current_stage : SupplyChainStage
  pub started_at : ℕ
  pub estimated_completion : Option ℕ
  pub is_complete : Bool
  pub participants : List ℕ

-- `role` is the number of one of the five roles, from 1.
pub record TrackingActor : Type 0 where
  pub address : ℕ
  pub role : ℕ
  pub name : ℕ
  pub verified : Bool

pub record Tracker (Metadata : Type 0) : Type 0 where
  pub tracking_records : Dict (TrackingRecord Metadata)
  pub verified_actors : Dict TrackingActor
  pub metadata_store : Dict Metadata

pub data TrackingError : Type 0 where
  not_found already_complete unverified_actor invalid_progression : TrackingError

abbrev pub is_dispute : SupplyChainStage → Bool
is_dispute dispute = true
is_dispute _ = false

abbrev pub is_completed : SupplyChainStage → Bool
is_completed completed = true
is_completed _ = false

-- durations[checkpoint.stage], as a map from the stages' numbers
abbrev pub duration_in : ℕ → Dict ℤ → ℤ
duration_in stage m = elim (lookup stage m) [ none ↦ pos 0 | some d ↦ d ]

module _ {Metadata : Type 0} where
  unfoldable pub register_actor : TrackingActor → Tracker Metadata → Tracker Metadata
  register_actor a s = record s { verified_actors = insert a.address a s.verified_actors }

  unfoldable pub is_verified_actor : Tracker Metadata → ℕ → Option ℕ → Bool
  is_verified_actor s address role = elim (lookup address s.verified_actors) [
    | none ↦ false
    | some a ↦ elim role [ none ↦ a.verified | some r ↦ a.verified && a.role == r ]
  ]

  unfoldable pub initialize_tracking : ℕ → ℕ → Option ℕ → ℕ → Tracker Metadata → Tracker Metadata
  initialize_tracking product manufacturer estimate now s = record s {
    tracking_records =
        insert product
          (record {
            product_id = product;
            checkpoints = [];
            current_stage = material_sourcing;
            started_at = now;
            estimated_completion = estimate;
            is_complete = false;
            participants = manufacturer ∷ [];
          })
          s.tracking_records;
  }

  module _ (keccak : Metadata → ℕ) where
    -- the hash of 64 zeros, where there is no metadata
    abbrev pub metadata_hash : Option Metadata → ℕ
    metadata_hash none = 0
    metadata_hash (some metadata) = keccak metadata

    abbrev store_metadata : Option Metadata → Dict Metadata → Dict Metadata
    store_metadata none m = m
    store_metadata (some metadata) m = insert (keccak metadata) metadata m

    -- the changes of recordCheckpoint to the record
    unfoldable pub add_checkpoint :
        Checkpoint Metadata → TrackingRecord Metadata → TrackingRecord Metadata
    add_checkpoint c r = record r {
      checkpoints = r.checkpoints ++ c ∷ [];
      current_stage = c.stage;
      participants = include c.actor r.participants;
      is_complete = if is_completed c.stage then true else r.is_complete;
    }

    -- Returns the index of the checkpoint.
    unfoldable pub record_checkpoint :
        ℕ
        → ℕ
        → SupplyChainStage
        → ℕ
        → Option Metadata
        → ℕ
        → ℕ
        → Tracker Metadata
        → Result TrackingError (ℕ × Tracker Metadata)
    record_checkpoint actor product stage location metadata now tx_hash s = do
      r ← or_throw (lookup product s.tracking_records) not_found
      throw_if r.is_complete already_complete
      throw_if (not (is_verified_actor s actor none)) unverified_actor
      throw_if (ltb (rank stage) (rank r.current_stage) && not (is_dispute stage))
          invalid_progression
      let c : Checkpoint Metadata = record {
        stage = stage;
        location = location;
        actor = actor;
        data_hash = metadata_hash metadata;
        timestamp = now;
        metadata = metadata;
        transaction_hash = tx_hash;
      }
      ok (
        length r.checkpoints,
        record s {
          tracking_records = insert product (add_checkpoint c r) s.tracking_records;
          metadata_store = store_metadata metadata s.metadata_store;
        },
      )

    -- for each product, its identifier and the error that recordCheckpoint threw, if it did
    unfoldable pub batch_record_checkpoints :
        ℕ
        → List ℕ
        → SupplyChainStage
        → ℕ
        → Option Metadata
        → ℕ
        → ℕ
        → Tracker Metadata
        → List (ℕ × Option TrackingError) × Tracker Metadata
    batch_record_checkpoints actor [] stage location metadata now tx_hash s = ([], s)
    batch_record_checkpoints actor (i ∷ is) stage location metadata now tx_hash s =
        elim (record_checkpoint actor i stage location metadata now tx_hash s) [
          | ok (_, s') ↦
              let (results, s'') =
                batch_record_checkpoints actor is stage location metadata now tx_hash s' in
              ((i, none) ∷ results, s'')
          | err e ↦
              let (results, s'') =
                batch_record_checkpoints actor is stage location metadata now tx_hash s in
              ((i, some e) ∷ results, s'')
        ]

    unfoldable pub verify_checkpoint : Checkpoint Metadata → Bool
    verify_checkpoint c = c.data_hash == metadata_hash c.metadata

  unfoldable pub get_tracking_history : Tracker Metadata → ℕ → Option (TrackingRecord Metadata)
  get_tracking_history s product = lookup product s.tracking_records

  unfoldable pub get_checkpoints_by_stage :
      Tracker Metadata → ℕ → SupplyChainStage → List (Checkpoint Metadata)
  get_checkpoints_by_stage s product stage = elim (lookup product s.tracking_records) [
    | none ↦ []
    | some r ↦ select (λ c. rank c.stage == rank stage) r.checkpoints
  ]

  abbrev last_location : List (Checkpoint Metadata) → Option ℕ
  last_location [] = none
  last_location (c ∷ []) = some c.location
  last_location (_ ∷ d ∷ cs) = last_location (d ∷ cs)

  unfoldable pub get_current_location : Tracker Metadata → ℕ → Option ℕ
  get_current_location s product = elim (lookup product s.tracking_records) [
    | none ↦ none
    | some r ↦ last_location r.checkpoints
  ]

  -- the loop, on the start of the stage and the durations
  unfoldable pub durations_loop : List (Checkpoint Metadata) → ℕ → Dict ℤ → Dict ℤ
  durations_loop [] start m = m
  durations_loop (c ∷ cs) start m =
      durations_loop cs c.timestamp
        (insert (rank c.stage) (duration_in (rank c.stage) m +ℤ (pos c.timestamp -ℤ pos start)) m)

  unfoldable pub get_stage_durations : Tracker Metadata → ℕ → Dict ℤ
  get_stage_durations s product = elim (lookup product s.tracking_records) [
    | none ↦ []
    | some r ↦ durations_loop r.checkpoints r.started_at []
  ]
