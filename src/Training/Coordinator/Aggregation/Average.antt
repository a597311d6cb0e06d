-- ===== src/Training/Coordinator/Aggregation/Average.antt =====
-- What an aggregate is made of.
use abundance_protocol.Prelude.{
  ℕ, ◌+◌, ◌≤◌, ◌≡◌, refl, sym, ap, ◌∙◌, Bool, true, false, not, Option, none, some, List, [], ◌∷◌,
  ◌++◌, ◌==◌, ltb, if◌then◌else◌, length, replicate, arith, inl, inr, Bool-cases, Option-cases,
}
use mathlib.Core.List.{append-nil, append_assoc}
use abundance_protocol.Result.{Result, ok, err}
use abundance_protocol.Dict.{Dict, lookup, values, lookup-insert_self}
use abundance_protocol.Registry.{
  update_key, update_key_missing, update_key_found, update_key_others,
}
use abundance_protocol.Training.Coordinator.{
  Floats, CoordinatorConfig, TrainingJob, WorkerState, TrainingError, too_few_gradients,
  unknown_worker, JobStatus,
}
use abundance_protocol.Training.Coordinator.Norms.{zero_of, calculate_median}
use abundance_protocol.Training.Coordinator.Collection.{penalize, thrice}
use abundance_protocol.Training.Coordinator.Aggregation.{
  AggregationResult, Summed, norms_of, accumulate, divide_all, is_poisoned, sum_step, sum_loop,
  averaged, compressed_by, finish_aggregation, first_length, nothing_summed, aggregate,
}

-- The norm that is recorded of a worker.
abbrev pub norm_at : {R : Type 0} → ℕ → Dict (WorkerState R) → Option R
norm_at id workers = elim (lookup id workers) [ none ↦ none | some w ↦ some w.gradient_norm ]

norm_at-penalize :
    {R : Type 0} (n id k : ℕ) (workers : Dict (WorkerState R))
    → norm_at k (update_key id (penalize n) workers) ≡ norm_at k workers
unfolding penalize
norm_at-penalize n id k workers = elim (Bool-cases (id == k)) [
  | inl same ↦
      let e : id ≡ k = ground arith in
      elim (Option-cases (lookup id workers)) [
        | inl gone ↦ rw (update_key_missing id (penalize n) workers gone)
        | inr (w, found) ↦
            let kept = update_key_found id (penalize n) workers found in
            rw (← e, kept) (ground (arith, found, lookup-insert_self id (penalize n w) workers))
      ]
  | inr other ↦ ground (arith, update_key_others id (penalize n) workers k (ground arith))
]

module _ {R : Type 0} (fl : Floats R) where
  -- The sum of gradients, one after the other.
  unfoldable pub total : List R → List (List R) → List R
  total acc [] = acc
  total acc (g ∷ gs) = total (accumulate fl acc g) gs

module _ {R : Type 0} (fl : Floats R) (median : R) (workers : Dict (WorkerState R)) where
  -- Whether the norm that is recorded of a worker is within three times the median.
  abbrev pub is_fine : ℕ → Bool
  is_fine id = elim (norm_at id workers) [
    | none ↦ false
    | some norm ↦ if fl.num.less (thrice fl median) norm then false else true
  ]

  -- The gradients that are not poisoned, by the workers before the call, and the names of the others.
  unfoldable pub accepted : Dict (List R) → List (List R)
  accepted [] = []
  accepted ((id, g) ∷ gs) = let rest = accepted gs in if is_fine id then g ∷ rest else rest

  unfoldable pub rejected : Dict (List R) → List ℕ
  rejected [] = []
  rejected ((id, g) ∷ gs) = let rest = rejected gs in if is_fine id then rest else id ∷ rest

  SameNorms : Summed R → Type 0
  SameNorms s = (k : ℕ) → norm_at k s.workers ≡ norm_at k workers

  -- What the loop makes of the gradients that are left.
  record Sums (gs : Dict (List R)) (s t : Summed R) : Type 0 where
    sum : t.aggregated ≡ total fl s.aggregated (accepted gs)
    counted : t.valid_count ≡ s.valid_count + length (accepted gs)
    named : t.excluded ≡ s.excluded ++ rejected gs

  is_fine-not :
      (id : ℕ) (w : WorkerState R) (s : Summed R)
      → SameNorms s
      → lookup id s.workers ≡ some w
      → is_fine id ≡ not (is_poisoned fl median w)
  unfolding SameNorms
  is_fine-not id w s same found = ground (arith, same id)

  sum_step-bad :
      (id : ℕ) (g : List R) (gs : Dict (List R)) (w : WorkerState R) (s t : Summed R)
      → is_poisoned fl median w ≡ true
      → is_fine id ≡ false
      → Sums gs (sum_step fl median id g w s) t
      → Sums ((id, g) ∷ gs) s t
  unfolding sum_step accepted rejected
  sum_step-bad id g gs w s t bad not_fine ih = record {
    sum = ground (arith, ih.sum);
    counted = ground (arith, ih.counted);
    named = ground (arith, ih.named, append_assoc s.excluded (id ∷ []) (rejected gs));
  }

  sum_step-good :
      (id : ℕ) (g : List R) (gs : Dict (List R)) (w : WorkerState R) (s t : Summed R)
      → is_poisoned fl median w ≡ false
      → is_fine id ≡ true
      → Sums gs (sum_step fl median id g w s) t
      → Sums ((id, g) ∷ gs) s t
  unfolding sum_step accepted rejected total
  sum_step-good id g gs w s t good fine ih = record {
    sum = ground (arith, ih.sum);
    counted = ground (arith, ih.counted);
    named = ground (arith, ih.named);
  }

  sum_step-SameNorms :
      (id : ℕ) (g : List R) (w : WorkerState R) (s : Summed R)
      → SameNorms s
      → SameNorms (sum_step fl median id g w s)
  unfolding SameNorms sum_step
  sum_step-SameNorms id g w s same k = elim (Bool-cases (is_poisoned fl median w)) [
    | inl bad ↦ rw bad (norm_at-penalize 30 id k s.workers ∙ same k)
    | inr good ↦ rw good (same k)
  ]

  sum_loop-Sums :
      (gs : Dict (List R)) (s : Summed R)
      → SameNorms s
      → (sum_loop fl median gs s).0 ≡ ok tt
      → Sums gs s (sum_loop fl median gs s).1
  unfolding sum_loop
  sum_loop-Sums [] s same e = record {
    sum = unfold total accepted in refl;
    counted = unfold accepted in omega arith;
    named = unfold rejected in sym (append-nil s.excluded);
  }
  sum_loop-Sums ((id, g) ∷ gs) s same e = elim (Option-cases (lookup id s.workers)) [
    | inl gone ↦ let e' : err unknown_worker ≡ ok tt = rw (gone, sum_loop) at e in cc
    | inr (w, found) ↦
        let s' = sum_step fl median id g w s in
        let t = (sum_loop fl median gs s').1 in
        let rest =
          sum_loop-Sums gs s' (sum_step-SameNorms id g w s same) (rw (found, sum_loop) at e) in
        let fine = is_fine-not id w s same found in
        rw (found, sum_loop)
          (elim (Bool-cases (is_poisoned fl median w)) [
            | inl bad ↦ sum_step-bad id g gs w s t bad (rw bad at fine) rest
            | inr good ↦ sum_step-good id g gs w s t good (rw good at fine) rest
          ])
  ]

module _ {R : Type 0} (fl : Floats R) where
  -- The median of the norms of the gradients, and the mean of gradients of a length.
  abbrev pub typical : Dict (List R) → R
  typical gradients = calculate_median fl (norms_of fl (values gradients))

  unfoldable pub mean : ℕ → List (List R) → List R
  mean n gs =
      let sum = total fl (replicate n (zero_of fl)) gs in
      if ltb 0 (length gs) then divide_all fl (length gs) sum else sum

  finished :
      (config : CoordinatorConfig) (gradients : Dict (List R)) (pick : ℕ → ℕ) (now : ℕ)
      (job : TrainingJob R) (r : Result TrainingError (Unit {0})) (s : Summed R)
      (result : AggregationResult R)
      → (r ≡ ok tt
          → Sums fl (typical gradients) job.workers gradients (nothing_summed fl gradients job) s)
      → (finish_aggregation fl config.gradient_compression_level pick now
          (record job { status = JobStatus.aggregating })
          (r, s)).0
        ≡ ok result
      → (result.aggregated_gradient
          ≡ compressed_by fl config.gradient_compression_level pick (
              mean
                (first_length gradients)
                (accepted fl (typical gradients) job.workers gradients)))
        × (result.excluded_workers ≡ rejected fl (typical gradients) job.workers gradients)
  unfolding finish_aggregation mean
  finished config gradients pick now job (err x) s result sums e = cc
  finished config gradients pick now job (ok u) s result sums e =
      let found = sums refl in
      let same : averaged fl s
          ≡ mean (first_length gradients) (accepted fl (typical gradients) job.workers gradients) =
        ground (arith, found.sum, found.counted) in
      (
        ground (arith, ap (compressed_by fl config.gradient_compression_level pick) same),
        ground (arith, found.named),
      )

  -- An aggregation that returns had enough gradients, and aggregates those alone whose workers' recorded
  -- norm is not above three times the median of all norms: the result is their mean, compressed as
  -- configured, and the excluded workers are exactly the others, in the order of the gradients.
  pub aggregate_average :
      (config : CoordinatorConfig) (gradients : Dict (List R)) (pick : ℕ → ℕ) (now : ℕ)
      (job : TrainingJob R) (result : AggregationResult R)
      → (aggregate fl config gradients pick now job).0 ≡ ok result
      → (config.min_workers ≤ length gradients)
        × (result.aggregated_gradient
            ≡ compressed_by fl config.gradient_compression_level pick (
                mean
                  (first_length gradients)
                  (accepted fl (typical gradients) job.workers gradients)))
        × (result.excluded_workers ≡ rejected fl (typical gradients) job.workers gradients)
  unfolding aggregate SameNorms
  aggregate_average config gradients pick now job result e =
      elim (Bool-cases (ltb (length gradients) config.min_workers)) [
        | inl few ↦ let e' : err too_few_gradients ≡ ok result = rw few at e in cc
        | inr enough ↦
            let start = nothing_summed fl gradients job in
            let loop = sum_loop fl (typical gradients) gradients start in
            let (sum, named) =
              finished config gradients pick now job loop.0 loop.1 result
                (sum_loop-Sums fl (typical gradients) job.workers gradients start (λ k. refl))
                (rw enough at e) in
            (ground (arith, enough), sum, named)
      ]
