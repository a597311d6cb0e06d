-- ===== src/Training/Coordinator/Collection.antt =====
-- How gradients are collected (src/training/coordinator.ts: collectGradients, _internalValidateGradient).
-- The i-th random number for a worker is `random node_id i`, the time at which it is done `now node_id`.
-- Nothing in the loop throws, so its handler of errors is not reached.
use abundance_protocol.Prelude.{
  ℕ, Bool, true, false, Option, none, some, List, [], ◌∷◌, ◌++◌, leb, ◌==◌, if◌then◌else◌, length,
}
use abundance_protocol.Prelude.Int.{ℤ, pos, pos_part, ◌-ℤ◌}
use abundance_protocol.Result.{Result, ok, err}
use abundance_protocol.Dict.{Dict, lookup, insert, erase, values}
use abundance_protocol.Registry.{update_key}
use abundance_protocol.Reputation.{abs}
use abundance_protocol.Training.Coordinator.{
  Floats, WorkerStatus, WorkerState, TrainingJob, TrainingCoordinator, TrainingError, job_not_found,
  get_job_for_node,
}
use abundance_protocol.Training.Coordinator.Norms.{
  zero_of, compute_gradient_norm, calculate_median, calculate_std_dev, compute_local_gradient,
}

-- Math.max(0, x)
abbrev pub max_zero : ℤ → ℤ
max_zero x = pos (pos_part x)

abbrev pub keys : {V : Type 0} → Dict V → List ℕ
keys [] = []
keys ((k, _) ∷ m) = k ∷ keys m

abbrev pub is_failed : WorkerStatus → Bool
is_failed WorkerStatus.failed = true
is_failed _ = false

module _ {R : Type 0} where
  unfoldable pub update_worker :
      ℕ → ℕ → (WorkerState R → WorkerState R) → Dict (TrainingJob R) → Dict (TrainingJob R)
  update_worker job_id node_id f =
      update_key job_id λ job. record job { workers = update_key node_id f job.workers }

  unfoldable pub penalize : ℕ → WorkerState R → WorkerState R
  penalize n worker = record worker {
    reputation_score = max_zero (worker.reputation_score -ℤ pos n);
  }

-- What the loop over the workers has changed so far.
pub record Collected (R : Type 0) : Type 0 where
  pub jobs : Dict (TrainingJob R)
  pub gradients : Dict (List R)
  pub norms : List R

module _ {R : Type 0} (fl : Floats R) where
  unfoldable pub positive_norms : List (WorkerState R) → List R
  positive_norms [] = []
  positive_norms (w ∷ ws) =
      let rest = positive_norms ws in
      if fl.num.less (zero_of fl) w.gradient_norm then w.gradient_norm ∷ rest else rest

  abbrev pub thrice : R → R
  thrice x = fl.num.mul (fl.num.lit 3 1) x

  abbrev pub judged : ℕ → R → Dict (TrainingJob R) → ℕ × TrainingJob R → Bool × Dict (TrainingJob R)
  judged node_id norm jobs (job_id, job) =
      let norms = positive_norms (values job.workers) in
      if length norms == 0
      then (true, jobs)
      else if fl.num.less (thrice (calculate_median fl norms)) norm
      then (
        false,
        update_worker job_id node_id
            (λ w. record w { reputation_score = w.reputation_score -ℤ pos 10 }) jobs,
      )
      else (true, jobs)

  -- The job that is judged by, and changed, is the first one that has the worker.
  unfoldable pub internal_validate_gradient :
      ℕ → List R → Dict (TrainingJob R) → Bool × Dict (TrainingJob R)
  internal_validate_gradient node_id gradient jobs = elim (get_job_for_node node_id jobs) [
    | none ↦ (false, jobs)
    | some found ↦ judged node_id (compute_gradient_norm fl gradient) jobs found
  ]

  module _ (random : ℕ → ℕ → R) (now : ℕ → ℕ) where
    -- one worker that has not failed
    unfoldable pub collect_worker : ℕ → ℕ → WorkerState R → Collected R → Collected R
    collect_worker job_id node_id worker c =
        let gradient = compute_local_gradient fl (random node_id) worker in
        let norm = compute_gradient_norm fl gradient in
        let noted =
          update_worker job_id node_id
            (λ w. record w { gradient_norm = norm; status = WorkerStatus.uploading_gradients })
            c.jobs in
        let (valid, jobs) = internal_validate_gradient node_id gradient noted in
        record {
          jobs =
              update_worker job_id node_id
                (λ w. record w { status = WorkerStatus.idle; last_heartbeat = now node_id }) jobs;
          gradients = if valid then insert node_id gradient c.gradients else c.gradients;
          norms = c.norms ++ (norm ∷ []);
        }

    abbrev pub worker_of : ℕ → ℕ → Dict (TrainingJob R) → Option (WorkerState R)
    worker_of job_id node_id jobs = elim (lookup job_id jobs) [
      | none ↦ none
      | some job ↦ lookup node_id job.workers
    ]

    unfoldable pub collect_step : ℕ → ℕ → Collected R → Collected R
    collect_step job_id node_id c = elim (worker_of job_id node_id c.jobs) [
      | none ↦ c
      | some w ↦ if is_failed w.status then c else collect_worker job_id node_id w c
    ]

    unfoldable pub collect_loop : ℕ → List ℕ → Collected R → Collected R
    collect_loop job_id [] c = c
    collect_loop job_id (node_id ∷ ids) c = collect_loop job_id ids (collect_step job_id node_id c)

  -- One gradient in the loop over the gradients, which deletes from the map that it walks through.
  unfoldable pub exclude_outlier : ℕ → R → R → ℕ → Collected R → Collected R
  exclude_outlier job_id median std_dev node_id c =
      let norm = elim (lookup job_id c.jobs) as (λ _. R) [
        | none ↦ fl.nan
        | some job ↦ elim (lookup node_id job.workers) as (λ _. R) [
          | none ↦ fl.nan
          | some w ↦ w.gradient_norm
        ]
      ] in
      if fl.num.less (thrice std_dev) (abs fl.num (fl.num.sub norm median))
      then record c {
        gradients = erase node_id c.gradients;
        jobs = update_worker job_id node_id (penalize 20) c.jobs;
      }
      else c

  unfoldable pub exclude_loop : ℕ → R → R → List ℕ → Collected R → Collected R
  exclude_loop job_id median std_dev [] c = c
  exclude_loop job_id median std_dev (node_id ∷ ids) c =
      exclude_loop job_id median std_dev ids (exclude_outlier job_id median std_dev node_id c)

  unfoldable pub exclude_outliers : ℕ → ℕ → Collected R → Collected R
  exclude_outliers min_workers job_id c =
      let median = calculate_median fl c.norms in
      let checked =
        exclude_loop job_id median (calculate_std_dev fl c.norms median) (keys c.gradients) c in
      if leb min_workers (length c.gradients) then checked else c

  -- job.aggregationBuffer = gradients
  abbrev pub buffered :
      ℕ
      → Collected R
      → TrainingCoordinator R
      → Result TrainingError (Dict (List R)) × TrainingCoordinator R
  buffered job_id c s = (
    ok c.gradients,
    record s {
      jobs = update_key job_id (λ job. record job { aggregation_buffer = some c.gradients }) c.jobs;
    },
  )

  unfoldable pub collect_gradients :
      (ℕ → ℕ → R)
      → (ℕ → ℕ)
      → ℕ
      → TrainingCoordinator R
      → Result TrainingError (Dict (List R)) × TrainingCoordinator R
  collect_gradients random now job_id s = elim (lookup job_id s.jobs) [
    | none ↦ (err job_not_found, s)
    | some job ↦
        let start : Collected R = record { jobs = s.jobs; gradients = []; norms = [] } in
        buffered job_id
          (exclude_outliers s.config.min_workers job_id
            (collect_loop random now job_id (keys job.workers) start))
          s
  ]
