-- ===== src/Training/Coordinator/Norms.antt =====
-- The statistics of gradients (src/training/coordinator.ts: computeGradientNorm, calculateMedian,
-- calculateStdDev, computeLocalGradient). The n-th random number is `random n`.
use abundance_protocol.Prelude.{
  ℕ, ◌+◌, ◌-◌, ◌/◌, ◌%◌, none, some, List, [], ◌∷◌, ltb, ◌==◌, if◌then◌else◌, length, get_elem?,
}
use abundance_protocol.Governance.Proposals.{sort_by}
use abundance_protocol.Training.Coordinator.{Floats, WorkerState}

module _ {R : Type 0} (fl : Floats R) where
  abbrev pub zero_of : R
  zero_of = fl.num.lit 0 1

  -- xs[i], in arithmetic
  abbrev pub entry_at : List R → ℕ → R
  entry_at xs i = elim (get_elem? xs i) [ none ↦ fl.nan | some x ↦ x ]

  unfoldable pub sum_squares : R → List R → R
  sum_squares acc [] = acc
  sum_squares acc (x ∷ xs) = sum_squares (fl.num.add acc (fl.num.mul x x)) xs

  unfoldable pub compute_gradient_norm : List R → R
  compute_gradient_norm gradient = fl.sqrt (sum_squares zero_of gradient)

  abbrev pub middle : List R → R
  middle sorted =
      let mid = length sorted / 2 in
      if length sorted % 2 == 0
      then fl.num.div (fl.num.add (entry_at sorted (mid - 1)) (entry_at sorted mid))
          (fl.num.lit 2 1)
      else entry_at sorted mid

  unfoldable pub calculate_median : List R → R
  calculate_median values =
      if length values == 0 then zero_of else middle (sort_by (λ a b. fl.num.less a b) values)

  -- values.reduce((acc, val) => acc + Math.pow(val - mean, 2), 0)
  unfoldable pub sum_deviations : R → R → List R → R
  sum_deviations mean acc [] = acc
  sum_deviations mean acc (x ∷ xs) =
      let d = fl.num.sub x mean in sum_deviations mean (fl.num.add acc (fl.num.mul d d)) xs

  unfoldable pub calculate_std_dev : List R → R → R
  calculate_std_dev values mean =
      if ltb (length values) 2
      then zero_of
      else fl.sqrt (fl.num.div (sum_deviations mean zero_of values) (fl.num.lit (length values) 1))

  -- the entries of a simulated gradient from the i-th on
  unfoldable pub simulated : (ℕ → R) → List R → ℕ → List R
  simulated random [] i = []
  simulated random (_ ∷ shard) i =
      fl.single (fl.num.mul (fl.num.sub (random i) (fl.num.lit 5 10)) (fl.num.lit 1 100))
      ∷ simulated random shard (i + 1)

  unfoldable pub compute_local_gradient : (ℕ → R) → WorkerState R → List R
  compute_local_gradient random worker = elim worker.model_shard [
    | none ↦ []
    | some shard ↦ simulated random shard 0
  ]
