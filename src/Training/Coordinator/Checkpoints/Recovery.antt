-- ===== src/Training/Coordinator/Checkpoints/Recovery.antt =====
-- What a recovery restores, whatever was done since the checkpoint.
use abundance_protocol.Prelude.{
  ℕ, ◌≡◌, ◌≢◌, refl, ap, ◌∙◌, some, List, [], ◌∷◌, ◌++◌, ltb, length, get_elem?, All, arith, inl,
  inr, Bool-cases, Option-cases,
}
use abundance_protocol.Prelude.Int.{ℤ, pos}
use abundance_protocol.Result.{Result, ok, err}
use abundance_protocol.Dict.{Dict, lookup, insert, lookup-insert_self, lookup-insert_ne}
use abundance_protocol.Training.Coordinator.{
  Floats, JobConfig, Checkpoint, TrainingJob, TrainingCoordinator, TrainingError, no_model,
  JobStatus, start_training_job_async, at_job, put_back,
}
use abundance_protocol.Training.Coordinator.Shards.{distribute, distribute_model}
use abundance_protocol.Training.Coordinator.Collection.{collect_gradients}
use abundance_protocol.Training.Coordinator.Aggregation.{aggregate_gradients}
use abundance_protocol.Training.Coordinator.Checkpoints.Kept.{
  Stored, at_job-Stored, distribute-Keeps, collect_gradients-Stored, aggregate-Keeps, save-Keeps,
  recover-Keeps,
}
use abundance_protocol.Training.Coordinator.Checkpoints.{
  save, checkpoint, restore, recover, recover_from_checkpoint,
}

-- The asynchronous methods on jobs, with what the environment yields.
pub data Call (R : Type 0) : Type 0 where
  starts : List ℕ → JobConfig R → ℕ → List ℕ → ℕ → Call R
  distributes : (ℕ → R) → (ℕ → ℕ) → ℕ → Call R
  collects : (ℕ → ℕ → R) → (ℕ → ℕ) → ℕ → Call R
  aggregates : Dict (List R) → (ℕ → ℕ) → ℕ → ℕ → Call R
  saves : ℕ → ℕ → ℕ → Call R
  recovers : (ℕ → R) → (ℕ → ℕ) → ℤ → ℕ → Call R

module _ {R : Type 0} (fl : Floats R) (hash : List R → ℕ) where
  unfoldable pub perform : Call R → TrainingCoordinator R → TrainingCoordinator R
  perform (starts name config job_id available now) s =
      (start_training_job_async fl name config job_id available now s).1
  perform (distributes random now job_id) s = (distribute_model fl random now job_id s).1
  perform (collects random now job_id) s = (collect_gradients fl random now job_id s).1
  perform (aggregates gradients pick now job_id) s =
      (aggregate_gradients fl gradients pick now job_id s).1
  perform (saves path now job_id) s = (checkpoint hash path now job_id s).1
  perform (recovers random now index job_id) s =
      (recover_from_checkpoint fl random now index job_id s).1

  unfoldable pub run : List (Call R) → TrainingCoordinator R → TrainingCoordinator R
  run [] s = s
  run (c ∷ cs) s = run cs (perform c s)

-- The call makes no job of the identifier.
abbrev pub Spares : {R : Type 0} → ℕ → Call R → Type 0
Spares j (starts _ _ job_id _ _) = job_id ≢ j
Spares j (distributes _ _ _) = Unit
Spares j (collects _ _ _) = Unit
Spares j (aggregates _ _ _ _) = Unit
Spares j (saves _ _ _) = Unit
Spares j (recovers _ _ _ _) = Unit

at_job_found :
    {R A : Type 0} (k : ℕ) (f : TrainingJob R → Result TrainingError A × TrainingJob R)
    (s : TrainingCoordinator R) {job : TrainingJob R}
    → lookup k s.jobs ≡ some job
    → at_job k f s ≡ put_back k s (f job)
unfolding at_job
at_job_found k f s e = rw (e, at_job)

module _ {R : Type 0} (fl : Floats R) (hash : List R → ℕ) where
  -- A stored checkpoint stays where it is.
  perform-Stored :
      (j i : ℕ) (c : Checkpoint R) (call : Call R) (s : TrainingCoordinator R)
      → Spares j call
      → Stored j i c s.jobs
      → Stored j i c (perform fl hash call s).jobs
  unfolding perform start_training_job_async distribute_model checkpoint recover_from_checkpoint
      aggregate_gradients
  perform-Stored j i c (starts name config k available now) s spares st =
      elim (Bool-cases (ltb (length available) s.config.min_workers)) [
        | inl few ↦ rw (few, perform, start_training_job_async) st
        | inr enough ↦
            rw (enough, perform, start_training_job_async)
              (record {
                job = st.job;
                found = rw (lookup-insert_ne j k _ s.jobs spares) st.found;
                kept = st.kept;
              })
      ]
  perform-Stored j i c (distributes random now k) s spares st =
      at_job-Stored j i c k _ s (distribute-Keeps j i c fl random now) st
  perform-Stored j i c (collects random now k) s spares st =
      collect_gradients-Stored j i c fl random now k s st
  perform-Stored j i c (aggregates gradients pick now k) s spares st =
      at_job-Stored j i c k _ s (aggregate-Keeps j i c fl s.config gradients pick now) st
  perform-Stored j i c (saves path now k) s spares st =
      at_job-Stored j i c k _ s (save-Keeps j i c hash path now) st
  perform-Stored j i c (recovers random now index k) s spares st =
      at_job-Stored j i c k _ s (recover-Keeps j i c fl random now index) st

  run-Stored :
      (j i : ℕ) (c : Checkpoint R) (calls : List (Call R)) (s : TrainingCoordinator R)
      → All (Spares j) calls
      → Stored j i c s.jobs
      → Stored j i c (run fl hash calls s).jobs
  unfolding run
  run-Stored j i c [] s spares st = st
  run-Stored j i c (x ∷ xs) s spares st =
      run-Stored j i c xs _ spares.1 (perform-Stored j i c x s spares.0 st)

  get_elem?-last :
      (cs : List (Checkpoint R)) (c : Checkpoint R)
      → get_elem? (cs ++ (c ∷ [])) (length cs) ≡ some c
  get_elem?-last [] c = refl
  get_elem?-last (x ∷ cs) c = get_elem?-last cs c

  -- What a recovery leaves of a job.
  recovered :
      (random : ℕ → R) (now : ℕ → ℕ) (j i : ℕ) (c : Checkpoint R) (s : TrainingCoordinator R)
      → Stored j i c s.jobs
      → ((recover_from_checkpoint fl random now (pos i) j s).0 ≡ ok tt)
        × ((job : TrainingJob R) × (lookup j
                (recover_from_checkpoint fl random now (pos i) j s).1.jobs
              ≡ some job)
            × (job.current_epoch ≡ c.epoch)
            × (job.current_loss ≡ c.loss)
            × (job.status ≡ JobStatus.training))
  unfolding recover_from_checkpoint at_job recover restore distribute
  recovered random now j i c s st =
      let done : at_job j (recover fl random now (pos i)) s
          ≡ (ok tt, record s { jobs = insert j (restore fl random now c st.job) s.jobs }) =
        rw (st.found, at_job, st.kept, recover) in
      rw done
        (refl, (restore fl random now c st.job, lookup-insert_self j _ s.jobs, refl, refl, refl))

  made-Stored :
      (path made j : ℕ) (s : TrainingCoordinator R) (job : TrainingJob R) {c : Checkpoint R}
      → lookup j s.jobs ≡ some job
      → (checkpoint hash path made j s).0 ≡ ok c
      → Stored j (length job.checkpoints) c (checkpoint hash path made j s).1.jobs
        × (c.epoch ≡ job.current_epoch)
        × (c.loss ≡ job.current_loss)
  unfolding checkpoint at_job save
  made-Stored path made j s job {c} found saved = elim (Option-cases job.global_model) [
    | inl e ↦ let e' : err no_model ≡ ok c = rw (found, at_job, e, save) at saved in cc
    | inr (m, e) ↦
        let d : Checkpoint R = record {
          epoch = job.current_epoch;
          loss = job.current_loss;
          model_hash = hash m;
          storage_path = path;
          timestamp = made;
        } in
        let e' : ok d ≡ ok c = rw (found, at_job, e, save) at saved in
        let same : d ≡ c = ground arith in
        let new : TrainingJob R = record job {
          checkpoints = job.checkpoints ++ (d ∷ []);
          status = JobStatus.training;
        } in
        let done : at_job j (save hash path made) s
            ≡ (ok d, record s { jobs = insert j new s.jobs }) =
          at_job_found j (save hash path made) s found ∙ ap (put_back j s) (ground (arith, e)) in
        rw (← same, done)
          (
            record {
              job = new;
              found = lookup-insert_self j new s.jobs;
              kept = get_elem?-last job.checkpoints d;
            },
            refl,
            refl,
          )
  ]

  -- A recovery from a checkpoint brings back the epoch and the loss at which it was made: whatever is
  -- called in between, in whatever order, for this job or others, but the start of a job of the same
  -- identifier, it returns, and the job is in training with that epoch and that loss.
  pub recover-checkpoint :
      (path made j : ℕ) (calls : List (Call R)) (random : ℕ → R) (now : ℕ → ℕ)
      (s : TrainingCoordinator R) (job : TrainingJob R) {c : Checkpoint R}
      → lookup j s.jobs ≡ some job
      → (checkpoint hash path made j s).0 ≡ ok c
      → All (Spares j) calls
      → let t = run fl hash calls (checkpoint hash path made j s).1 in
        let after = recover_from_checkpoint fl random now (pos (length job.checkpoints)) j t in
        (after.0 ≡ ok tt)
        × ((left : TrainingJob R) × (lookup j after.1.jobs ≡ some left)
            × (left.current_epoch ≡ job.current_epoch)
            × (left.current_loss ≡ job.current_loss)
            × (left.status ≡ JobStatus.training))
  recover-checkpoint path made j calls random now s job {c} found saved spares =
      let n = length job.checkpoints in
      let (st, epoch, loss) = made-Stored path made j s job found saved in
      let t = run fl hash calls (checkpoint hash path made j s).1 in
      let (fine, (left, there, e, e', status)) =
        recovered random now j n c t (run-Stored j n c calls _ spares st) in
      (fine, (left, there, e ∙ epoch, e' ∙ loss, status))
