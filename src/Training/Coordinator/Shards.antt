-- ===== src/Training/Coordinator/Shards.antt =====
-- How a model is split among the workers (src/training/coordinator.ts: distributeModel). The n-th random
-- number is `random n`, and `now n` the time after the wait for the n-th worker.
pub mod Partition
use abundance_protocol.Prelude.{
  ℕ, zero, suc, ◌+◌, ◌-◌, ◌*◌, ◌/◌, ◌≤◌, ◌<◌, ◌≡◌, refl, sym, ap, ◌∙◌, Option, none, some, List, [],
  ◌∷◌, ◌++◌, ◌==◌, if◌then◌else◌, length, take, All, arith, inl, inr, Bool-cases,
}
use abundance_protocol.Prelude.Slices.{slice}
use abundance_protocol.Result.{Result, ok}
use abundance_protocol.Dict.{Dict}
use abundance_protocol.Training.Coordinator.{
  Floats, JobStatus, WorkerStatus, WorkerState, TrainingJob, TrainingCoordinator, TrainingError,
  parse_model_size, at_job,
}

module _ {R : Type 0} where
  -- What a worker becomes before and after the wait.
  unfoldable pub shard_begin : List R → WorkerState R → WorkerState R
  shard_begin shard worker = record worker {
    model_shard = some shard;
    status = WorkerStatus.downloading;
  }

  unfoldable pub shard_end : ℕ → WorkerState R → WorkerState R
  shard_end now worker = record worker { status = WorkerStatus.idle; last_heartbeat = now }

  abbrev pub shard_of : List R → ℕ → ℕ → ℕ → List R
  shard_of model count size index =
      slice (index * size) (if index == count - 1 then length model else (index + 1) * size) model

  -- the loop over the workers
  unfoldable pub shard_loop :
      List R → ℕ → ℕ → (ℕ → ℕ) → ℕ → Dict (WorkerState R) → Dict (WorkerState R)
  shard_loop model count size now index [] = []
  shard_loop model count size now index ((node_id, worker) ∷ workers) =
      (node_id, shard_end (now index) (shard_begin (shard_of model count size index) worker))
      ∷ shard_loop model count size now (index + 1) workers

module _ {R : Type 0} (fl : Floats R) (random : ℕ → R) where
  -- the initial weights from the i-th on
  unfoldable pub initial_weights : ℕ → ℕ → List R
  initial_weights zero i = []
  initial_weights (suc n) i =
      fl.single (fl.num.mul (fl.num.sub (random i) (fl.num.lit 5 10)) (fl.num.lit 2 100))
      ∷ initial_weights n (i + 1)

  abbrev pub model_of : TrainingJob R → List R
  model_of job = elim job.global_model [
    | some model ↦ model
    | none ↦ initial_weights (parse_model_size job.model_size) 0
  ]

  unfoldable pub distribute : (ℕ → ℕ) → TrainingJob R → TrainingJob R
  distribute now job =
      let count = length job.workers in
      record job {
        status = JobStatus.training;
        global_model = some (model_of job);
        workers = shard_loop (model_of job) count (length (model_of job) / count) now 0 job.workers;
      }

  unfoldable pub distribute_model :
      (ℕ → ℕ) → ℕ → TrainingCoordinator R → Result TrainingError (Unit {0}) × TrainingCoordinator R
  distribute_model now job_id = at_job job_id (λ job. (ok tt, distribute now job))
