-- ===== src/Training/Coordinator/Simple/Workers.antt =====
-- The workers of the simplified jobs.
use abundance_protocol.Prelude.{
  ℕ, ◌≤◌, ◌≡◌, false, Option, List, [], ◌∷◌, arith, count, includes, include, exclude, inl, inr,
  Bool-cases, count-append,
}
use abundance_protocol.Dict.{Dict, Every, Every-insert}
use abundance_protocol.Registry.{at_key-Every}
use abundance_protocol.Training.Coordinator.{SimpleJob, job_not_found}
use abundance_protocol.Training.Coordinator.Simple.{
  start_simple_job, add_worker, handle_worker_failure,
}

-- The methods that change the simplified jobs.
pub data SimpleCall : Type 0 where
  opens : ℕ → ℕ → ℕ → Option ℕ → SimpleCall
  adds : ℕ → ℕ → SimpleCall
  loses : ℕ → ℕ → SimpleCall

unfoldable pub perform : SimpleCall → Dict SimpleJob → Dict SimpleJob
perform (opens id dataset epochs batch) jobs = (start_simple_job id dataset epochs batch jobs).1
perform (adds job_id worker_id) jobs = (add_worker job_id worker_id jobs).1
perform (loses job_id worker_id) jobs = (handle_worker_failure job_id worker_id jobs).1

unfoldable pub run : List SimpleCall → Dict SimpleJob → Dict SimpleJob
run [] jobs = jobs
run (c ∷ cs) jobs = run cs (perform c jobs)

-- No worker is listed twice.
abbrev pub IsListed : SimpleJob → Type 0
IsListed job = (k : ℕ) → count k job.workers ≤ 1

count-absent : (k : ℕ) (ms : List ℕ) → includes k ms ≡ false → count k ms ≡ 0
count-absent k [] h = omega arith
count-absent k (m ∷ ms) h = ground (arith, count-absent k ms)

include-few :
    (n : ℕ) (ms : List ℕ) → ((k : ℕ) → count k ms ≤ 1) → (k : ℕ) → count k (include n ms) ≤ 1
include-few n ms h k = elim (Bool-cases (includes n ms)) [
  | inl old ↦ rw old (h k)
  | inr new ↦ rw new (ground (arith, count-append k ms (n ∷ []), h k, count-absent n ms new))
]

exclude-few : (n k : ℕ) (ms : List ℕ) → count k (exclude n ms) ≤ count k ms
exclude-few n k [] = omega arith
exclude-few n k (m ∷ ms) = ground (arith, exclude-few n k ms)

perform-IsListed :
    (c : SimpleCall) (jobs : Dict SimpleJob)
    → Every (λ _. IsListed) jobs
    → Every (λ _. IsListed) (perform c jobs)
unfolding perform start_simple_job add_worker handle_worker_failure
perform-IsListed (opens id dataset epochs batch) jobs h =
    Every-insert {P = λ _. IsListed} id _ jobs h (λ k. omega arith)
perform-IsListed (adds job_id worker_id) jobs h =
    at_key-Every job_not_found job_id _ jobs {P = λ _. IsListed} h
      (λ v w a p e k. let new = include-few worker_id v.workers p k in ground (arith, e, new))
perform-IsListed (loses job_id worker_id) jobs h =
    at_key-Every job_not_found job_id _ jobs {P = λ _. IsListed} h (λ v w a p e k.
      let fewer = exclude-few worker_id k v.workers in ground (arith, e, p k, fewer))

-- Whatever jobs are started, and whatever workers are added and lost, in whatever order, no job lists a
-- worker twice, if none did before.
pub run-IsListed :
    (cs : List SimpleCall) (jobs : Dict SimpleJob)
    → Every (λ _. IsListed) jobs
    → Every (λ _. IsListed) (run cs jobs)
unfolding run
run-IsListed [] jobs h = h
run-IsListed (c ∷ cs) jobs h = run-IsListed cs (perform c jobs) (perform-IsListed c jobs h)
