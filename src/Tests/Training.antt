-- ===== src/Tests/Training.antt =====
-- Three workers that train a model of five weights, counted in hundredths.
mod Nan
use abundance_protocol.Prelude.{
  ℕ, zero, suc, ◌+◌, ◌/◌, ◌≤◌, ◌≡◌, ◌⊎◌, refl, Bool, true, false, Option, none, some, List, [], ◌∷◌,
  ltb, length, get_elem?, All, arith, inl, inr,
}
use abundance_protocol.Prelude.Int.{pos}
use abundance_protocol.Result.{ok}
use abundance_protocol.Dict.{Dict, lookup, values, Every}
use abundance_protocol.Registry.{update_key}
use abundance_protocol.Sorting.{IsOf, IsSorted}
use abundance_protocol.Governance.Proposals.{sort_by, insert_by}
use abundance_protocol.Reputation.{abs}
use abundance_protocol.Tests.Reputation.{hundredths}
use abundance_protocol.Training.Coordinator.{
  Floats, CoordinatorConfig, uncompressed, topk, random, JobConfig, JobStatus, WorkerStatus,
  WorkerState, TrainingJob, TrainingCoordinator, Checkpoint, at_job, b7,
}
use abundance_protocol.Training.Coordinator.Norms.{
  zero_of, sum_squares, compute_gradient_norm, calculate_median,
}
use abundance_protocol.Training.Coordinator.Shards.{distribute}
use abundance_protocol.Training.Coordinator.Shards.Partition.{
  joined, HasPart, distribute_partitions,
}
use abundance_protocol.Training.Coordinator.Compression.{internal_compress_gradients}
use abundance_protocol.Training.Coordinator.Compression.Sound.{
  IsKept, internal_compress_gradients_sound,
}
use abundance_protocol.Training.Coordinator.Aggregation.{
  AggregationResult, norms_of, accumulate, divide_all, sum_step, sum_loop, compressed_by, descend,
  finish_aggregation, first_length, aggregate,
}
use abundance_protocol.Training.Coordinator.Aggregation.Average.{
  accepted, rejected, typical, mean, aggregate_average,
}
use abundance_protocol.Training.Coordinator.Checkpoints.{save, checkpoint, recover_from_checkpoint}
use abundance_protocol.Training.Coordinator.Checkpoints.Recovery.{
  Call, distributes, aggregates, run, recover-checkpoint,
}
use abundance_protocol.Training.Coordinator.Simple.Workers.{
  IsListed, SimpleCall, opens, adds, loses, run as run_simple, run-IsListed,
}
use abundance_protocol.Training.Coordinator.Simple.{
  Entry, indexed, by_index, values_of, indices_of, top_entries, compress_gradients,
}
use abundance_protocol.Training.Coordinator.Simple.Top.{compress_gradients_top}
use abundance_protocol.Training.Coordinator.Compression.{portion}

abbrev floats : Floats ℕ
floats = record {
  num = hundredths;
  sqrt = λ x. x;
  single = λ x. x;
  infinity = 1000000;
  nan = 0;
  whole = λ x. x / 100;
}

abbrev worker : ℕ → ℕ → WorkerState ℕ
worker id norm = record {
  node_id = id;
  status = WorkerStatus.failed;
  current_batch = 0;
  local_loss = 0;
  gradient_norm = norm;
  last_heartbeat = 0;
  model_shard = none;
  reputation_score = pos 100;
}

abbrev job : TrainingJob ℕ
job = record {
  job_id = 1;
  model_name = [];
  model_size = b7;
  status = JobStatus.initializing;
  workers = (7, worker 7 5) ∷ (8, worker 8 25) ∷ (9, worker 9 2) ∷ [];
  current_epoch = 4;
  total_epochs = 10;
  current_loss = 30;
  best_loss = 20;
  started_at = 0;
  checkpoints = [];
  config = record { epochs = 10; batch_size = 2; learning_rate = 1; dataset_path = 0 };
  global_model = some (500 ∷ 400 ∷ 300 ∷ 200 ∷ 100 ∷ []);
  aggregation_buffer = none;
  last_aggregation_at = none;
  throughput_history = [];
}

abbrev config : CoordinatorConfig
config = record {
  min_workers = 2;
  max_workers = 20;
  checkpoint_interval_ms = 1000;
  gradient_compression_level = uncompressed;
}

distribute_partitions_example :
    (joined (distribute floats (λ n. n) (λ n. n) job).workers ≡ 500 ∷ 400 ∷ 300 ∷ 200 ∷ 100 ∷ [])
    × ((distribute floats (λ n. n) (λ n. n) job).global_model
        ≡ some (500 ∷ 400 ∷ 300 ∷ 200 ∷ 100 ∷ []))
    × All
        (HasPart (500 ∷ 400 ∷ 300 ∷ 200 ∷ 100 ∷ []))
        (values (distribute floats (λ n. n) (λ n. n) job).workers)
distribute_partitions_example =
    distribute_partitions floats (λ n. n) (λ n. n) job refl (omega arith) (omega arith)

abbrev gradient : List ℕ
gradient = 3 ∷ 9 ∷ 5 ∷ []

abbrev three_gradients : Dict (List ℕ)
three_gradients = (7, 10 ∷ 20 ∷ []) ∷ (8, 30 ∷ 40 ∷ []) ∷ (9, 10 ∷ 10 ∷ []) ∷ []

abbrev aggregated : AggregationResult ℕ
aggregated = record {
  aggregated_gradient = 10 ∷ 15 ∷ [];
  excluded_workers = 8 ∷ [];
  reputation_penalties = (8, 30) ∷ [];
}

aggregate_average_example :
    (2 ≤ 3)
    × (aggregated.aggregated_gradient
        ≡ compressed_by floats uncompressed
            (λ i. 0)
            (mean floats 2
              (accepted floats (typical floats three_gradients) job.workers three_gradients)))
    × (aggregated.excluded_workers
        ≡ rejected floats (typical floats three_gradients) job.workers three_gradients)
unfolding aggregate finish_aggregation sum_loop sum_step calculate_median norms_of sort_by insert_by
    compute_gradient_norm sum_squares compressed_by divide_all accumulate update_key
aggregate_average_example =
    aggregate_average floats config three_gradients (λ i. 0) 50 job aggregated refl

abbrev coordinator : TrainingCoordinator ℕ
coordinator = record {
  jobs = (1, job) ∷ [];
  config = config;
  simple_jobs = [];
  gradient_threshold = none;
}

abbrev sum_hash : List ℕ → ℕ
sum_hash model = length model

abbrev two_calls : List (Call ℕ)
two_calls = aggregates three_gradients (λ i. 0) 60 1 ∷ distributes (λ n. n) (λ n. n) 1 ∷ []

abbrev saved : Checkpoint ℕ
saved = record { epoch = 4; loss = 30; model_hash = 5; storage_path = 9; timestamp = 55 }

recover-checkpoint_example :
    let t = run floats sum_hash two_calls (checkpoint sum_hash 9 55 1 coordinator).1 in
    let after = recover_from_checkpoint floats (λ n. n) (λ n. n) (pos 0) 1 t in
    (after.0 ≡ ok tt)
    × ((left : TrainingJob ℕ) × (lookup 1 after.1.jobs ≡ some left)
        × (left.current_epoch ≡ 4)
        × (left.current_loss ≡ 30)
        × (left.status ≡ JobStatus.training))
unfolding checkpoint save at_job
recover-checkpoint_example =
    recover-checkpoint floats sum_hash 9 55 1 two_calls (λ n. n) (λ n. n) coordinator job
      {c = saved} refl refl (tt, (tt, tt))

compress_gradients_top_example :
    (IsOf (record { v = 3; i = 0 }) (top_entries floats gradient 34)
      ⊎ (ltb (abs hundredths 9) (abs hundredths 3) ≡ false))
    × (get_elem? gradient 1 ≡ some 9)
    × IsSorted by_index (top_entries floats gradient 34)
    × ((compress_gradients floats gradient 34).values ≡ values_of (top_entries floats gradient 34))
    × ((compress_gradients floats gradient 34).indices
        ≡ indices_of (top_entries floats gradient 34))
unfolding top_entries portion sort_by insert_by indexed
compress_gradients_top_example =
    compress_gradients_top floats (λ a b e. ground (arith, e)) (λ a b c e e'. ground (arith, e, e'))
      gradient 34 (record { v = 9; i = 1 }) (record { v = 3; i = 0 }) (inl refl) (inl refl)
