-- ===== src/Training/Coordinator/Checkpoints.antt =====
-- Checkpoints and lost workers (src/training/coordinator.ts: checkpoint, recoverFromCheckpoint, the first
-- handleWorkerFailure, startCheckpointInterval). The class declares handleWorkerFailure twice, and the
-- second one, of the simplified jobs, takes the place of the first. `hash` is sha256 of the weights' bytes.
pub mod Kept
pub mod Recovery
use abundance_protocol.Prelude.{
  ℕ, zero, suc, ◌+◌, ◌-◌, ◌<◌, Bool, true, false, Option, none, some, List, [], ◌∷◌, ◌++◌, ltb,
  ◌==◌, if◌then◌else◌, length, get_elem?, includes,
}
use abundance_protocol.Prelude.Int.{ℤ, pos, negsuc}
use abundance_protocol.Result.{Result, ok, err}
use abundance_protocol.Dict.{Dict, lookup, insert, values}
use abundance_protocol.Registry.{update_key}
use abundance_protocol.Training.Coordinator.{
  Floats, JobStatus, WorkerStatus, WorkerState, Checkpoint, TrainingJob, TrainingCoordinator,
  TrainingError, no_model, invalid_checkpoint, new_worker, at_job,
}
use abundance_protocol.Training.Coordinator.Shards.{distribute}
use abundance_protocol.Training.Coordinator.Collection.{keys, is_failed}

module _ {R : Type 0} (hash : List R → ℕ) where
  -- The warning on a loss that has grown changes nothing.
  unfoldable pub save : ℕ → ℕ → TrainingJob R → Result TrainingError (Checkpoint R) × TrainingJob R
  save storage_path now job = elim job.global_model [
    | none ↦ (err no_model, record job { status = JobStatus.checkpointing })
    | some model ↦
        let checkpoint : Checkpoint R = record {
          epoch = job.current_epoch;
          loss = job.current_loss;
          model_hash = hash model;
          storage_path = storage_path;
          timestamp = now;
        } in
        (
          ok checkpoint,
          record job {
            checkpoints = job.checkpoints ++ (checkpoint ∷ []);
            status = JobStatus.training;
          },
        )
  ]

  unfoldable pub checkpoint :
      ℕ
      → ℕ
      → ℕ
      → TrainingCoordinator R
      → Result TrainingError (Checkpoint R) × TrainingCoordinator R
  checkpoint storage_path now job_id = at_job job_id (save storage_path now)

  -- What the timer does with a job that is there: whether it stops, and the job afterwards.
  unfoldable pub tick : ℕ → ℕ → TrainingJob R → Bool × TrainingJob R
  tick storage_path now job = elim job.status [
    | JobStatus.completed ↦ (true, job)
    | JobStatus.failed ↦ (true, job)
    | JobStatus.training ↦ (false, (save storage_path now job).1)
    | _ ↦ (false, job)
  ]

  unfoldable pub checkpoint_tick : ℕ → ℕ → ℕ → TrainingCoordinator R → Bool × TrainingCoordinator R
  checkpoint_tick storage_path now job_id s = elim (lookup job_id s.jobs) [
    | none ↦ (true, s)
    | some job ↦
        let (stops, job') = tick storage_path now job in
        (stops, record s { jobs = insert job_id job' s.jobs })
  ]

-- checkpoints[i], for an index that may be negative
abbrev pub checkpoint_at : {R : Type 0} → ℤ → List (Checkpoint R) → Option (Checkpoint R)
checkpoint_at (pos i) checkpoints = get_elem? checkpoints i
checkpoint_at (negsuc i) checkpoints = none

module _ {R : Type 0} (fl : Floats R) where
  -- the loop over the workers
  unfoldable pub reset_loop : Dict (WorkerState R) → Dict (WorkerState R)
  reset_loop [] = []
  reset_loop ((node_id, worker) ∷ workers) =
      (
        node_id,
        record worker {
          status = WorkerStatus.assigned;
          current_batch = 0;
          local_loss = fl.infinity;
        },
      )
      ∷ reset_loop workers

  module _ (random : ℕ → R) (now : ℕ → ℕ) where
    unfoldable pub restore : Checkpoint R → TrainingJob R → TrainingJob R
    restore c job = distribute fl random now (record job {
      current_epoch = c.epoch;
      current_loss = c.loss;
      workers = reset_loop job.workers;
    })

    unfoldable pub recover : ℤ → TrainingJob R → Result TrainingError (Unit {0}) × TrainingJob R
    recover index job = elim (checkpoint_at index job.checkpoints) [
      | none ↦ (err invalid_checkpoint, job)
      | some c ↦ (ok tt, restore c job)
    ]

    unfoldable pub recover_from_checkpoint :
        ℤ → ℕ → TrainingCoordinator R → Result TrainingError (Unit {0}) × TrainingCoordinator R
    recover_from_checkpoint index job_id = at_job job_id (recover index)

    -- the first node that is no worker yet, and is not the one that failed
    unfoldable pub recruit : List ℕ → List ℕ → ℕ → Option ℕ
    recruit [] existing node_id = none
    recruit (c ∷ cs) existing node_id =
        let rest = recruit cs existing node_id in
        if includes c existing then rest else if c == node_id then rest else some c

    -- Redistribution makes every worker idle again, also the one that failed.
    unfoldable pub replaced : Option ℕ → ℕ → TrainingJob R → TrainingJob R
    replaced none joined job = job
    replaced (some candidate) joined job =
        distribute fl random now
          (record job { workers = insert candidate (new_worker fl candidate joined) job.workers })

    unfoldable pub count_active : List (WorkerState R) → ℕ
    count_active [] = 0
    count_active (w ∷ ws) =
        let rest = count_active ws in if is_failed w.status then rest else suc rest

    -- checkpoints.length - 1
    abbrev pub last_index : List (Checkpoint R) → ℤ
    last_index cs = if length cs == 0 then negsuc 0 else pos (length cs - 1)

    unfoldable pub lose_worker :
        ℕ → List ℕ → ℕ → ℕ → TrainingJob R → Result TrainingError (Unit {0}) × TrainingJob R
    lose_worker min_workers available node_id joined job = elim (lookup node_id job.workers) [
      | none ↦ (ok tt, job)
      | some worker ↦
          let marked = record job {
            workers = insert node_id (record worker { status = WorkerStatus.failed }) job.workers;
          } in
          let after = replaced (recruit available (keys marked.workers) node_id) joined marked in
          if ltb (count_active (values after.workers)) min_workers
          then recover (last_index after.checkpoints) after
          else (ok tt, after)
    ]

    unfoldable pub handle_worker_failure_async :
        List ℕ
        → ℕ
        → ℕ
        → ℕ
        → TrainingCoordinator R
        → Result TrainingError (Unit {0}) × TrainingCoordinator R
    handle_worker_failure_async available joined job_id node_id s =
        at_job job_id (lose_worker s.config.min_workers available node_id joined) s
