-- ===== src/Training/Coordinator/Checkpoints/Kept.antt =====
-- That a stored checkpoint stays where it is.
use mathlib.Core.Path.{subst}
use abundance_protocol.Prelude.{
  ℕ, zero, suc, ◌≡◌, Bool, true, false, some, List, [], ◌∷◌, ◌++◌, ◌==◌, ltb, if◌then◌else◌, length,
  get_elem?, arith, inl, inr, Bool-cases, Option-cases,
}
use abundance_protocol.Prelude.Int.{ℤ}
use abundance_protocol.Result.{Result, ok, err}
use abundance_protocol.Dict.{Dict, lookup, insert, values, lookup-insert_self, lookup-insert_ne}
use abundance_protocol.Registry.{update_key, update_key-keep}
use abundance_protocol.Training.Coordinator.{
  Floats, CompressionLevel, CoordinatorConfig, Checkpoint, WorkerState, TrainingJob,
  TrainingCoordinator, TrainingError, at_job, get_job_for_node,
}
use abundance_protocol.Training.Coordinator.Shards.{distribute}
use abundance_protocol.Training.Coordinator.Norms.{calculate_median}
use abundance_protocol.Training.Coordinator.Collection.{
  Collected, keys, thrice, positive_norms, update_worker, judged, internal_validate_gradient,
  collect_worker, collect_step, collect_loop, worker_of, exclude_outlier, exclude_loop,
  exclude_outliers, collect_gradients,
}
use abundance_protocol.Training.Coordinator.Aggregation.{Summed, finish_aggregation, aggregate}
use abundance_protocol.Training.Coordinator.Checkpoints.{checkpoint_at, save, restore, recover}

module _ {R : Type 0} (j i : ℕ) (c : Checkpoint R) where
  -- The job has the checkpoint at that place.
  abbrev pub Keeps : TrainingJob R → Type 0
  Keeps job = get_elem? job.checkpoints i ≡ some c

  -- The map has such a job under the identifier.
  pub record Stored (jobs : Dict (TrainingJob R)) : Type 0 where
    pub job : TrainingJob R
    pub found : lookup j jobs ≡ some job
    pub kept : Keeps job

  update_key-Stored :
      (k : ℕ) (f : TrainingJob R → TrainingJob R) (jobs : Dict (TrainingJob R))
      → ((job : TrainingJob R) → Keeps job → Keeps (f job))
      → Stored jobs
      → Stored (update_key k f jobs)
  update_key-Stored k f jobs keep st =
      let (job, found, kept) = update_key-keep k f jobs {P = Keeps} keep j st.found st.kept in
      record { job = job; found = found; kept = kept }

  update_worker-Stored :
      (k n : ℕ) (f : WorkerState R → WorkerState R) (jobs : Dict (TrainingJob R))
      → Stored jobs
      → Stored (update_worker k n f jobs)
  unfolding update_worker
  update_worker-Stored k n f jobs st = update_key-Stored k _ jobs (λ job h. h) st

  insert-Stored :
      (k : ℕ) (old new : TrainingJob R) (jobs : Dict (TrainingJob R))
      → lookup k jobs ≡ some old
      → (Keeps old → Keeps new)
      → Stored jobs
      → Stored (insert k new jobs)
  insert-Stored k old new jobs e keep st = elim (Bool-cases (k == j)) [
    | inl same ↦
        let kj : k ≡ j = ground arith in
        let here : lookup j jobs ≡ some old = rw (← kj) e in
        let eq : st.job ≡ old = ground (arith, st.found, here) in
        record {
          job = new;
          found = rw (← kj) (lookup-insert_self k new jobs);
          kept = keep (subst Keeps eq st.kept);
        }
    | inr other ↦ record {
      job = st.job;
      found = rw (lookup-insert_ne j k new jobs (ground arith)) st.found;
      kept = st.kept;
    }
  ]

  pub at_job-Stored :
      {A : Type 0} (k : ℕ) (f : TrainingJob R → Result TrainingError A × TrainingJob R)
      (s : TrainingCoordinator R)
      → ((job : TrainingJob R) → Keeps job → Keeps (f job).1)
      → Stored s.jobs
      → Stored (at_job k f s).1.jobs
  unfolding at_job
  at_job-Stored k f s keep st = elim (Option-cases (lookup k s.jobs)) [
    | inl e ↦ rw (e, at_job) st
    | inr (job, e) ↦ rw (e, at_job) (insert-Stored k job (f job).1 s.jobs e (keep job) st)
  ]

  append-Keeps :
      (cs : List (Checkpoint R)) (d : Checkpoint R) (n : ℕ)
      → get_elem? cs n ≡ some c
      → get_elem? (cs ++ (d ∷ [])) n ≡ some c
  append-Keeps [] d n h = cc
  append-Keeps (x ∷ cs) d zero h = h
  append-Keeps (x ∷ cs) d (suc n) h = append-Keeps cs d n h

  pub save-Keeps :
      (hash : List R → ℕ) (path now : ℕ) (job : TrainingJob R)
      → Keeps job
      → Keeps (save hash path now job).1
  unfolding save
  save-Keeps hash path now job h = elim (Option-cases job.global_model) [
    | inl e ↦ rw (e, save) h
    | inr (m, e) ↦ rw (e, save) (append-Keeps job.checkpoints _ i h)
  ]

  module _ (fl : Floats R) where
    pub distribute-Keeps :
        (random : ℕ → R) (now : ℕ → ℕ) (job : TrainingJob R)
        → Keeps job
        → Keeps (distribute fl random now job)
    unfolding distribute
    distribute-Keeps random now job h = h

    pub recover-Keeps :
        (random : ℕ → R) (now : ℕ → ℕ) (index : ℤ) (job : TrainingJob R)
        → Keeps job
        → Keeps (recover fl random now index job).1
    unfolding recover restore distribute
    recover-Keeps random now index job h =
        elim (Option-cases (checkpoint_at index job.checkpoints)) [
          | inl e ↦ rw (e, recover) h
          | inr (d, e) ↦ rw (e, recover) h
        ]

    finish_aggregation-Keeps :
        (level : CompressionLevel) (pick : ℕ → ℕ) (now : ℕ) (job : TrainingJob R)
        (r : Result TrainingError (Unit {0}) × Summed R)
        → Keeps job
        → Keeps (finish_aggregation fl level pick now job r).1
    unfolding finish_aggregation
    finish_aggregation-Keeps level pick now job (ok u, s) h = h
    finish_aggregation-Keeps level pick now job (err x, s) h = h

    pub aggregate-Keeps :
        (config : CoordinatorConfig) (gradients : Dict (List R)) (pick : ℕ → ℕ) (now : ℕ)
        (job : TrainingJob R)
        → Keeps job
        → Keeps (aggregate fl config gradients pick now job).1
    unfolding aggregate
    aggregate-Keeps config gradients pick now job h =
        elim (Bool-cases (ltb (length gradients) config.min_workers)) [
          | inl few ↦ rw few h
          | inr enough ↦
              rw enough (finish_aggregation-Keeps config.gradient_compression_level pick now _ _ h)
        ]

    branch-Stored :
        (b : Bool) (x y : Collected R)
        → Stored x.jobs
        → Stored y.jobs
        → Stored (if b then x else y).jobs
    branch-Stored true x y p q = p
    branch-Stored false x y p q = q

    judged-Stored :
        (node_id : ℕ) (norm : R) (jobs : Dict (TrainingJob R)) (found : ℕ × TrainingJob R)
        → Stored jobs
        → Stored (judged fl node_id norm jobs found).1
    judged-Stored node_id norm jobs (k, job) st =
        let norms = positive_norms fl (values job.workers) in
        elim (Bool-cases (length norms == 0)) [
          | inl first ↦ rw first st
          | inr more ↦
              rw more
                (elim (Bool-cases (fl.num.less (thrice fl (calculate_median fl norms)) norm)) [
                  | inl bad ↦ rw bad (update_worker-Stored k node_id _ jobs st)
                  | inr good ↦ rw good st
                ])
        ]

    internal_validate_gradient-Stored :
        (node_id : ℕ) (gradient : List R) (jobs : Dict (TrainingJob R))
        → Stored jobs
        → Stored (internal_validate_gradient fl node_id gradient jobs).1
    unfolding internal_validate_gradient
    internal_validate_gradient-Stored node_id gradient jobs st =
        elim (Option-cases (get_job_for_node node_id jobs)) [
          | inl e ↦ rw (e, internal_validate_gradient) st
          | inr (found, e) ↦
              rw (e, internal_validate_gradient) (judged-Stored node_id _ jobs found st)
        ]

    module _ (random : ℕ → ℕ → R) (now : ℕ → ℕ) (k : ℕ) where
      collect_worker-Stored :
          (node_id : ℕ) (w : WorkerState R) (d : Collected R)
          → Stored d.jobs
          → Stored (collect_worker fl random now k node_id w d).jobs
      unfolding collect_worker
      collect_worker-Stored node_id w d st = update_worker-Stored k node_id _ _ (
          internal_validate_gradient-Stored node_id _ _
            (update_worker-Stored k node_id _ d.jobs st))

      collect_step-Stored :
          (node_id : ℕ) (d : Collected R)
          → Stored d.jobs
          → Stored (collect_step fl random now k node_id d).jobs
      unfolding collect_step
      collect_step-Stored node_id d st =
          elim (Option-cases (worker_of fl random now k node_id d.jobs)) [
            | inl e ↦ rw (e, collect_step) st
            | inr (w, e) ↦
                rw (e, collect_step) (branch-Stored _ _ _ st (collect_worker-Stored node_id w d st))
          ]

      collect_loop-Stored :
          (ids : List ℕ) (d : Collected R)
          → Stored d.jobs
          → Stored (collect_loop fl random now k ids d).jobs
      unfolding collect_loop
      collect_loop-Stored [] d st = st
      collect_loop-Stored (n ∷ ids) d st = collect_loop-Stored ids _ (collect_step-Stored n d st)

    exclude_loop-Stored :
        (k : ℕ) (median dev : R) (ids : List ℕ) (d : Collected R)
        → Stored d.jobs
        → Stored (exclude_loop fl k median dev ids d).jobs
    unfolding exclude_loop exclude_outlier
    exclude_loop-Stored k median dev [] d st = st
    exclude_loop-Stored k median dev (n ∷ ids) d st =
        exclude_loop-Stored k median dev ids _
          (branch-Stored _ _ _ (update_worker-Stored k n _ d.jobs st) st)

    exclude_outliers-Stored :
        (least k : ℕ) (d : Collected R)
        → Stored d.jobs
        → Stored (exclude_outliers fl least k d).jobs
    unfolding exclude_outliers
    exclude_outliers-Stored least k d st =
        branch-Stored _ _ _ (exclude_loop-Stored k _ _ (keys d.gradients) d st) st

    pub collect_gradients-Stored :
        (random : ℕ → ℕ → R) (now : ℕ → ℕ) (k : ℕ) (s : TrainingCoordinator R)
        → Stored s.jobs
        → Stored (collect_gradients fl random now k s).1.jobs
    unfolding collect_gradients
    collect_gradients-Stored random now k s st = elim (Option-cases (lookup k s.jobs)) [
      | inl e ↦ rw (e, collect_gradients) st
      | inr (job, e) ↦
          let start : Collected R = record { jobs = s.jobs; gradients = []; norms = [] } in
          rw (e, collect_gradients)
            (update_key-Stored k _ _ (λ job h. h)
              (exclude_outliers-Stored s.config.min_workers k _
                (collect_loop-Stored random now k (keys job.workers) start st)))
    ]
