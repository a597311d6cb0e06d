-- ===== src/Training/Coordinator/Simple.antt =====
-- The simplified jobs (src/training/coordinator.ts: startTrainingJob, addWorker, the second
-- handleWorkerFailure, getJob, validateGradient, compressGradients).
pub mod Workers
pub mod Top
use abundance_protocol.Prelude.{
  ℕ, suc, ◌+◌, Bool, true, false, Option, none, some, List, [], ◌∷◌, ltb, if◌then◌else◌, length,
  take, include, exclude,
}
use abundance_protocol.Result.{Result, ok, err}
use abundance_protocol.Dict.{Dict, lookup, insert}
use abundance_protocol.Registry.{at_key}
use abundance_protocol.Reputation.{abs}
use abundance_protocol.Governance.Proposals.{sort_by}
use abundance_protocol.Training.Coordinator.{
  Floats, SimpleJob, SimpleStatus, TrainingError, TrainingJob, TrainingCoordinator, job_not_found,
}
use abundance_protocol.Training.Coordinator.Norms.{zero_of}
use abundance_protocol.Training.Coordinator.Compression.{portion}

unfoldable pub start_simple_job : ℕ → ℕ → ℕ → Option ℕ → Dict SimpleJob → SimpleJob × Dict SimpleJob
start_simple_job id dataset epochs batch_size jobs =
    let job : SimpleJob = record {
      id = id;
      dataset = dataset;
      epochs = epochs;
      batch_size = elim batch_size [ none ↦ 32 | some n ↦ n ];
      status = SimpleStatus.initializing;
      workers = [];
      current_epoch = 0;
      global_step = 0;
    } in
    (job, insert id job jobs)

unfoldable pub add_worker :
    ℕ → ℕ → Dict SimpleJob → Result TrainingError (Unit {0}) × Dict SimpleJob
add_worker job_id worker_id =
    at_key job_not_found job_id
      λ job. ok (tt, record job { workers = include worker_id job.workers })

-- Returns the snapshot, and how many workers are left.
unfoldable pub handle_worker_failure :
    ℕ → ℕ → Dict SimpleJob → Result TrainingError (SimpleJob × ℕ) × Dict SimpleJob
handle_worker_failure job_id worker_id = at_key job_not_found job_id λ job.
    let left = record job { workers = exclude worker_id job.workers } in
    ok (
      (record left { status = SimpleStatus.recovering }, length left.workers),
      record left { status = SimpleStatus.running },
    )

unfoldable pub get_job : ℕ → Dict SimpleJob → Result TrainingError SimpleJob
get_job job_id jobs = elim (lookup job_id jobs) [ none ↦ err job_not_found | some job ↦ ok job ]

unfoldable pub get_job_status :
    {R : Type 0} → ℕ → TrainingCoordinator R → Result TrainingError (TrainingJob R)
get_job_status job_id s = elim (lookup job_id s.jobs) [
  | none ↦ err job_not_found
  | some job ↦ ok job
]

-- A value with its index.
pub record Entry (R : Type 0) : Type 0 where
  pub v : R
  pub i : ℕ

pub record CompressedGradient (R : Type 0) : Type 0 where
  pub values : List R
  pub indices : List ℕ
  pub compression_ratio : R

module _ {R : Type 0} where
  -- gradient.values.map((v, i) => ({ v, i })), from i on
  unfoldable pub indexed : ℕ → List R → List (Entry R)
  indexed i [] = []
  indexed i (v ∷ vs) = record { v = v; i = i } ∷ indexed (suc i) vs

  abbrev pub by_index : Entry R → Entry R → Bool
  by_index a b = ltb a.i b.i

  unfoldable pub values_of : List (Entry R) → List R
  values_of [] = []
  values_of (x ∷ xs) = x.v ∷ values_of xs

  unfoldable pub indices_of : List (Entry R) → List ℕ
  indices_of [] = []
  indices_of (x ∷ xs) = x.i ∷ indices_of xs

module _ {R : Type 0} (fl : Floats R) where
  -- `is_falsy` is that a number is 0 or NaN. Returns whether it is valid, and the ratio if it is not.
  unfoldable pub validate_gradient : (R → Bool) → R → R → TrainingCoordinator R → Bool × Option R
  validate_gradient is_falsy norm median s =
      let threshold = elim s.gradient_threshold as (λ _. R) [
        | none ↦ fl.num.lit 3 1
        | some t ↦ t
      ] in
      let ratio = fl.num.div norm (if is_falsy median then fl.num.lit 1 1 else median) in
      if fl.num.less threshold ratio then (false, some ratio) else (true, none)

  abbrev pub by_magnitude : Entry R → Entry R → Bool
  by_magnitude a b = fl.num.less (abs fl.num b.v) (abs fl.num a.v)

  -- the first entries by magnitude, sorted by their indices
  unfoldable pub top_entries : List R → R → List (Entry R)
  top_entries gradient ratio =
      sort_by by_index
        (take (portion fl (length gradient) ratio) (sort_by by_magnitude (indexed 0 gradient)))

  unfoldable pub compress_gradients : List R → R → CompressedGradient R
  compress_gradients gradient ratio = record {
    values = values_of (top_entries gradient ratio);
    indices = indices_of (top_entries gradient ratio);
    compression_ratio = ratio;
  }
