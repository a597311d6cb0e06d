-- ===== src/Training/Coordinator/Aggregation/Weights.antt =====
-- What an aggregation leaves of the model.
use abundance_protocol.Prelude.{
  ℕ, zero, suc, ◌≤◌, ◌<◌, ◌≡◌, some, List, [], ◌∷◌, ltb, length, get_elem?, arith, inl, inr,
  Bool-cases,
}
use abundance_protocol.Result.{Result, ok, err}
use abundance_protocol.Dict.{Dict, values}
use abundance_protocol.Training.Coordinator.{
  Floats, CoordinatorConfig, JobStatus, TrainingJob, TrainingError, too_few_gradients,
}
use abundance_protocol.Training.Coordinator.Norms.{calculate_median}
use abundance_protocol.Training.Coordinator.Aggregation.{
  AggregationResult, Summed, norms_of, nothing_summed, descend, sum_loop, finish_aggregation,
  aggregate,
}

-- Arithmetic with what is not a number.
pub record HasNan {R : Type 0} (fl : Floats R) : Type 0 where
  pub times : (x : R) → fl.num.mul x fl.nan ≡ fl.nan
  pub minus : (x : R) → fl.num.sub x fl.nan ≡ fl.nan
  pub stored : fl.single fl.nan ≡ fl.nan

module _ {R : Type 0} (fl : Floats R) (nan : HasNan fl) where
  descend-behind :
      (lr : R) (model gradient : List R) (i : ℕ)
      → length gradient ≤ i
      → i < length model
      → get_elem? (descend fl lr model gradient) i ≡ some fl.nan
  unfolding descend
  descend-behind lr [] g i h below = absurd (omega arith)
  descend-behind lr (w ∷ ws) [] zero h below = ground (arith, nan.times lr, nan.minus w, nan.stored)
  descend-behind lr (w ∷ ws) [] (suc i) h below =
      descend-behind lr ws [] i (omega arith) (omega arith)
  descend-behind lr (w ∷ ws) (g ∷ gs) zero h below = absurd (omega arith)
  descend-behind lr (w ∷ ws) (g ∷ gs) (suc i) h below =
      descend-behind lr ws gs i (omega arith) (omega arith)

  finished :
      (config : CoordinatorConfig) (pick : ℕ → ℕ) (now : ℕ) (job : TrainingJob R)
      (r : Result TrainingError (Unit {0})) (s : Summed R) {result : AggregationResult R}
      {model : List R} (i : ℕ)
      → job.global_model ≡ some model
      → (finish_aggregation fl config.gradient_compression_level pick now job (r, s)).0 ≡ ok result
      → length result.aggregated_gradient ≤ i
      → i < length model
      → (left : List R) × ((finish_aggregation fl config.gradient_compression_level pick now job
            (r, s)).1.global_model
          ≡ some left)
        × (get_elem? left i ≡ some fl.nan)
  unfolding finish_aggregation
  finished config pick now job (err x) s i e returned behind below = cc
  finished config pick now job (ok u) s {result} {model} i e returned behind below = (
    descend fl job.config.learning_rate model result.aggregated_gradient,
    ground (arith, e, returned),
    descend-behind job.config.learning_rate model result.aggregated_gradient i behind below,
  )

  -- An aggregation that returns destroys the weights that the aggregated gradient does not reach: each of
  -- them, at an index that is not below the gradient's length, is not a number afterwards.
  pub aggregate_ruins :
      (config : CoordinatorConfig) (gradients : Dict (List R)) (pick : ℕ → ℕ) (now : ℕ)
      (job : TrainingJob R) {result : AggregationResult R} {model : List R} (i : ℕ)
      → job.global_model ≡ some model
      → (aggregate fl config gradients pick now job).0 ≡ ok result
      → length result.aggregated_gradient ≤ i
      → i < length model
      → (left : List R) × ((aggregate fl config gradients pick now job).1.global_model ≡ some left)
        × (get_elem? left i ≡ some fl.nan)
  unfolding aggregate
  aggregate_ruins config gradients pick now job {result} i e returned behind below =
      let median = calculate_median fl (norms_of fl (values gradients)) in
      let loop = sum_loop fl median gradients (nothing_summed fl gradients job) in
      let started = record job { status = JobStatus.aggregating } in
      elim (Bool-cases (ltb (length gradients) config.min_workers)) [
        | inl few ↦ let e' : err too_few_gradients ≡ ok result = rw few at returned in cc
        | inr enough ↦ rw enough (
            finished config pick now started loop.0 loop.1 i e (rw enough at returned) behind below)
      ]
