-- ===== src/Training/Coordinator.antt =====
-- src/training/coordinator.ts, class TrainingCoordinator: its data, its state, and how a job enters it.
-- Losses, norms and weights are JavaScript numbers of a type `R` with the operations of `Floats`;
-- reputations are whole. Fields that are never read nor set (secretShare) stay out. An asynchronous
-- method is modelled from its start to its end, without what other calls do while it waits.
pub mod Shards
pub mod Norms
pub mod Collection
pub mod Compression
pub mod Aggregation
pub mod Checkpoints
pub mod Simple
use abundance_protocol.Prelude.{
  ℕ, Bool, true, false, ◌&&◌, ◌||◌, Option, none, some, List, [], ◌∷◌, ltb, ◌==◌, if◌then◌else◌,
  length, take,
}
use abundance_protocol.Prelude.Int.{ℤ, pos}
use abundance_protocol.Result.{Result, ok, err}
use abundance_protocol.Dict.{Dict, lookup, insert, has}
use abundance_protocol.Reputation.{Fractions}

-- `single` is the rounding to what a Float32Array stores, `whole` a number that is not negative, cut to
-- an index, and `nan` what arithmetic on undefined yields.
pub record Floats (R : Type 0) : Type 0 where
  pub num : Fractions R
  pub sqrt : R → R
  pub single : R → R
  pub infinity : R
  pub nan : R
  pub whole : R → ℕ

pub data CompressionLevel : Type 0 where
  uncompressed topk random : CompressionLevel

pub data JobStatus : Type 0 where
  initializing distributing training aggregating checkpointing completed failed : JobStatus

pub data WorkerStatus : Type 0 where
  assigned downloading training uploading_gradients idle failed : WorkerStatus

pub record JobConfig (R : Type 0) : Type 0 where
  pub epochs : ℕ
  pub batch_size : ℕ
  pub learning_rate : R
  pub dataset_path : ℕ

pub record CoordinatorConfig : Type 0 where
  pub min_workers : ℕ
  pub max_workers : ℕ
  pub checkpoint_interval_ms : ℕ
  pub gradient_compression_level : CompressionLevel

pub record Checkpoint (R : Type 0) : Type 0 where
  pub epoch : ℕ
  pub loss : R
  pub model_hash : ℕ
  pub storage_path : ℕ
  pub timestamp : ℕ

pub record WorkerState (R : Type 0) : Type 0 where
  pub node_id : ℕ
  pub status : WorkerStatus
  pub current_batch : ℕ
  pub local_loss : R
  pub gradient_norm : R
  pub last_heartbeat : ℕ
  pub model_shard : Option (List R)
  pub reputation_score : ℤ

-- The texts that inferModelSize yields.
pub data ModelSize : Type 0 where
  b70 b13 b7 : ModelSize

pub record TrainingJob (R : Type 0) : Type 0 where
  pub job_id : ℕ
  pub model_name : List ℕ
  pub model_size : ModelSize
  pub status : JobStatus
  pub workers : Dict (WorkerState R)
  pub current_epoch : ℕ
  pub total_epochs : ℕ
  pub current_loss : R
  pub best_loss : R
  pub started_at : ℕ
  pub checkpoints : List (Checkpoint R)
  pub config : JobConfig R
  pub global_model : Option (List R)
  pub aggregation_buffer : Option (Dict (List R))
  pub last_aggregation_at : Option ℕ
  pub throughput_history : List R

pub data SimpleStatus : Type 0 where
  initializing running recovering completed failed : SimpleStatus

pub record SimpleJob : Type 0 where
  pub id : ℕ
  pub dataset : ℕ
  pub epochs : ℕ
  pub batch_size : ℕ
  pub status : SimpleStatus
  pub workers : List ℕ
  pub current_epoch : ℕ
  pub global_step : ℕ

pub record TrainingCoordinator (R : Type 0) : Type 0 where
  pub jobs : Dict (TrainingJob R)
  pub config : CoordinatorConfig
  pub simple_jobs : Dict SimpleJob
  pub gradient_threshold : Option R

pub data TrainingError : Type 0 where
  too_few_configured : TrainingError
  insufficient_workers : TrainingError
  job_not_found : TrainingError
  too_few_gradients : TrainingError
  unknown_worker : TrainingError
  no_model : TrainingError
  invalid_checkpoint : TrainingError

-- What the constructor is given: a whole configuration, or the simplified one.
pub data Setup (R : Type 0) : Type 0 where
  whole_config : CoordinatorConfig → Setup R
  simplified : Option ℕ → Option R → Setup R

unfoldable pub new_coordinator :
    {R : Type 0} → Setup R → Result TrainingError (TrainingCoordinator R)
new_coordinator (simplified max_workers threshold) = ok (record {
  jobs = [];
  config = record {
    min_workers = 5;
    max_workers = elim max_workers [ none ↦ 20 | some n ↦ n ];
    checkpoint_interval_ms = 300000;
    gradient_compression_level = uncompressed;
  };
  simple_jobs = [];
  gradient_threshold = threshold;
})
new_coordinator (whole_config config) =
    if ltb config.min_workers 5
    then err too_few_configured
    else ok (record { jobs = []; config = config; simple_jobs = []; gradient_threshold = none })

-- name.includes(part), on the characters
abbrev pub starts_with : List ℕ → List ℕ → Bool
starts_with [] text = true
starts_with (c ∷ cs) [] = false
starts_with (c ∷ cs) (d ∷ ds) = c == d && starts_with cs ds

abbrev pub contains : List ℕ → List ℕ → Bool
contains part [] = starts_with part []
contains part (c ∷ cs) = starts_with part (c ∷ cs) || contains part cs

unfoldable pub infer_model_size : List ℕ → ModelSize
infer_model_size name =
    if contains (b'7' ∷ b'0' ∷ b'b' ∷ []) name || contains (b'7' ∷ b'0' ∷ b'B' ∷ []) name
    then b70
    else if contains (b'1' ∷ b'3' ∷ b'b' ∷ []) name || contains (b'1' ∷ b'3' ∷ b'B' ∷ []) name
    then b13
    else b7

unfoldable pub parse_model_size : ModelSize → ℕ
parse_model_size b70 = 70000000000
parse_model_size b13 = 13000000000
parse_model_size b7 = 7000000000

module _ {R : Type 0} (fl : Floats R) where
  unfoldable pub new_worker : ℕ → ℕ → WorkerState R
  new_worker node_id now = record {
    node_id = node_id;
    status = assigned;
    current_batch = 0;
    local_loss = fl.infinity;
    gradient_norm = fl.num.lit 0 1;
    last_heartbeat = now;
    model_shard = none;
    reputation_score = pos 100;
  }

  -- selectedWorkers.forEach
  unfoldable pub enlist : List ℕ → ℕ → Dict (WorkerState R) → Dict (WorkerState R)
  enlist [] now m = m
  enlist (node_id ∷ ids) now m = enlist ids now (insert node_id (new_worker node_id now) m)

  -- `available` is what the mesh yields, in the order that the shuffling leaves.
  unfoldable pub start_training_job_async :
      List ℕ
      → JobConfig R
      → ℕ
      → List ℕ
      → ℕ
      → TrainingCoordinator R
      → Result TrainingError ℕ × TrainingCoordinator R
  start_training_job_async model_name config job_id available now s =
      if ltb (length available) s.config.min_workers then (err insufficient_workers, s) else (
        ok job_id,
        record s {
          jobs =
              insert job_id
                (record {
                  job_id = job_id;
                  model_name = model_name;
                  model_size = infer_model_size model_name;
                  status = JobStatus.initializing;
                  workers = enlist (take s.config.max_workers available) now [];
                  current_epoch = 0;
                  total_epochs = config.epochs;
                  current_loss = fl.infinity;
                  best_loss = fl.infinity;
                  started_at = now;
                  checkpoints = [];
                  config = config;
                  global_model = none;
                  aggregation_buffer = none;
                  last_aggregation_at = none;
                  throughput_history = [];
                })
                s.jobs;
        },
      )

-- getJobOrThrow, and what the method then does with the job, which it may change before it throws
module _ {R A : Type 0} where
  abbrev pub put_back :
      ℕ
      → TrainingCoordinator R
      → Result TrainingError A × TrainingJob R
      → Result TrainingError A × TrainingCoordinator R
  put_back job_id s (r, job) = (r, record s { jobs = insert job_id job s.jobs })

  unfoldable pub at_job :
      ℕ
      → (TrainingJob R → Result TrainingError A × TrainingJob R)
      → TrainingCoordinator R
      → Result TrainingError A × TrainingCoordinator R
  at_job job_id f s = elim (lookup job_id s.jobs) [
    | none ↦ (err job_not_found, s)
    | some job ↦ put_back job_id s (f job)
  ]

unfoldable pub get_job_for_node :
    {R : Type 0} → ℕ → Dict (TrainingJob R) → Option (ℕ × TrainingJob R)
get_job_for_node node_id [] = none
get_job_for_node node_id ((job_id, job) ∷ jobs) =
    let rest = get_job_for_node node_id jobs in
    if has node_id job.workers then some (job_id, job) else rest
