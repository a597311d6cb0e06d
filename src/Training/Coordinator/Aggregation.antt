-- ===== src/Training/Coordinator/Aggregation.antt =====
-- How gradients are aggregated (src/training/coordinator.ts: aggregateGradients). Three places change the
-- job: its status at once, the reputations in the loop, and the model at the end.
pub mod Average
pub mod Weights
use abundance_protocol.Prelude.{
  ℕ, ◌+◌, Bool, Option, none, some, List, [], ◌∷◌, ◌++◌, ltb, if◌then◌else◌, length, replicate,
}
use abundance_protocol.Result.{Result, ok, err}
use abundance_protocol.Dict.{Dict, lookup, insert, values}
use abundance_protocol.Registry.{update_key}
use abundance_protocol.Training.Coordinator.{
  Floats, CompressionLevel, uncompressed, topk, random, CoordinatorConfig, JobStatus, WorkerState,
  TrainingJob, TrainingCoordinator, TrainingError, too_few_gradients, unknown_worker, at_job,
}
use abundance_protocol.Training.Coordinator.Norms.{zero_of, compute_gradient_norm, calculate_median}
use abundance_protocol.Training.Coordinator.Collection.{penalize, thrice}
use abundance_protocol.Training.Coordinator.Compression.{internal_compress_gradients}

pub record AggregationResult (R : Type 0) : Type 0 where
  pub aggregated_gradient : List R
  pub excluded_workers : List ℕ
  pub reputation_penalties : Dict ℕ

-- What the loop over the gradients has changed so far.
pub record Summed (R : Type 0) : Type 0 where
  pub workers : Dict (WorkerState R)
  pub aggregated : List R
  pub excluded : List ℕ
  pub penalties : Dict ℕ
  pub valid_count : ℕ

-- new Float32Array(firstGradient.length)
abbrev pub first_length : {R : Type 0} → Dict (List R) → ℕ
first_length [] = 0
first_length ((_, gradient) ∷ _) = length gradient

module _ {R : Type 0} (fl : Floats R) where
  unfoldable pub norms_of : List (List R) → List R
  norms_of [] = []
  norms_of (g ∷ gs) = compute_gradient_norm fl g ∷ norms_of gs

  -- aggregated[i] += gradient[i]; a write behind the end changes nothing
  unfoldable pub accumulate : List R → List R → List R
  accumulate [] gradient = []
  accumulate (a ∷ as') [] = a ∷ as'
  accumulate (a ∷ as') (g ∷ gs) = fl.single (fl.num.add a g) ∷ accumulate as' gs

  unfoldable pub divide_all : ℕ → List R → List R
  divide_all n [] = []
  divide_all n (a ∷ as') = fl.single (fl.num.div a (fl.num.lit n 1)) ∷ divide_all n as'

  abbrev pub is_poisoned : R → WorkerState R → Bool
  is_poisoned median worker = fl.num.less (thrice fl median) worker.gradient_norm

  unfoldable pub sum_step : R → ℕ → List R → WorkerState R → Summed R → Summed R
  sum_step median node_id gradient worker s =
      if is_poisoned median worker
      then record s {
        workers = update_key node_id (penalize 30) s.workers;
        excluded = s.excluded ++ (node_id ∷ []);
        penalties = insert node_id 30 s.penalties;
      }
      else record s {
        aggregated = accumulate s.aggregated gradient;
        valid_count = s.valid_count + 1;
      }

  -- A gradient of a node that is no worker throws.
  unfoldable pub sum_loop :
      R → Dict (List R) → Summed R → Result TrainingError (Unit {0}) × Summed R
  sum_loop median [] s = (ok tt, s)
  sum_loop median ((node_id, gradient) ∷ gradients) s = elim (lookup node_id s.workers) [
    | none ↦ (err unknown_worker, s)
    | some worker ↦ sum_loop median gradients (sum_step median node_id gradient worker s)
  ]

  abbrev pub averaged : Summed R → List R
  averaged s = if ltb 0 s.valid_count then divide_all s.valid_count s.aggregated else s.aggregated

  unfoldable pub compressed_by : CompressionLevel → (ℕ → ℕ) → List R → List R
  compressed_by uncompressed pick gradient = gradient
  compressed_by level pick gradient = internal_compress_gradients fl level pick gradient

  -- model[i] -= lr * gradient[i], where an entry behind the gradient's end is undefined
  unfoldable pub descend : R → List R → List R → List R
  descend lr [] gradient = []
  descend lr (w ∷ ws) [] = fl.single (fl.num.sub w (fl.num.mul lr fl.nan)) ∷ descend lr ws []
  descend lr (w ∷ ws) (g ∷ gs) = fl.single (fl.num.sub w (fl.num.mul lr g)) ∷ descend lr ws gs

  unfoldable pub finish_aggregation :
      CompressionLevel
      → (ℕ → ℕ)
      → ℕ
      → TrainingJob R
      → Result TrainingError (Unit {0}) × Summed R
      → Result TrainingError (AggregationResult R) × TrainingJob R
  finish_aggregation level pick now job (err e, s) = (err e, record job { workers = s.workers })
  finish_aggregation level pick now job (ok _, s) =
      let gradient = compressed_by level pick (averaged s) in
      (
        ok (record {
          aggregated_gradient = gradient;
          excluded_workers = s.excluded;
          reputation_penalties = s.penalties;
        }),
        record job {
          workers = s.workers;
          global_model = elim job.global_model [
            | none ↦ none
            | some model ↦ some (descend job.config.learning_rate model gradient)
          ];
          current_epoch = job.current_epoch + 1;
          last_aggregation_at = some now;
        },
      )

  -- the sums before the loop
  abbrev pub nothing_summed : Dict (List R) → TrainingJob R → Summed R
  nothing_summed gradients job = record {
    workers = job.workers;
    aggregated = replicate (first_length gradients) (zero_of fl);
    excluded = [];
    penalties = [];
    valid_count = 0;
  }

  -- the method from where it has the job; the median is of the norms of all the gradients
  unfoldable pub aggregate :
      CoordinatorConfig
      → Dict (List R)
      → (ℕ → ℕ)
      → ℕ
      → TrainingJob R
      → Result TrainingError (AggregationResult R) × TrainingJob R
  aggregate config gradients pick now job =
      let started = record job { status = JobStatus.aggregating } in
      let median = calculate_median fl (norms_of (values gradients)) in
      let summed = sum_loop median gradients (nothing_summed gradients job) in
      if ltb (length gradients) config.min_workers
      then (err too_few_gradients, started)
      else finish_aggregation config.gradient_compression_level pick now started summed

  unfoldable pub aggregate_gradients :
      Dict (List R)
      → (ℕ → ℕ)
      → ℕ
      → ℕ
      → TrainingCoordinator R
      → Result TrainingError (AggregationResult R) × TrainingCoordinator R
  aggregate_gradients gradients pick now job_id s =
      at_job job_id (aggregate s.config gradients pick now) s
