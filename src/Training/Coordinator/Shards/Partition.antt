-- ===== src/Training/Coordinator/Shards/Partition.antt =====
-- What the shards of a model amount to.
use abundance_protocol.Prelude.{
  ℕ, suc, ◌+◌, ◌-◌, ◌*◌, ◌/◌, ◌≤◌, ◌<◌, ◌≡◌, refl, ap, ◌∙◌, true, false, none, some, List, [], ◌∷◌,
  ◌++◌, ◌==◌, length, All, arith, inl, inr, Bool-cases,
}
use mathlib.Core.List.{append-nil}
use abundance_protocol.Prelude.Slices.{
  drop, slice, take-append-drop, drop-drop, length-drop, take-all, length-take,
}
use abundance_protocol.Dict.{Dict, values}
use abundance_protocol.Training.Coordinator.{Floats, WorkerStatus, WorkerState, TrainingJob}
use abundance_protocol.Training.Coordinator.Shards.{
  shard_begin, shard_end, shard_of, shard_loop, model_of, distribute,
}

module _ {R : Type 0} where
  -- The shards of the workers, one after the other.
  unfoldable pub joined : Dict (WorkerState R) → List R
  joined [] = []
  joined ((_, w) ∷ ws) = (elim w.model_shard [ none ↦ [] | some shard ↦ shard ]) ++ joined ws

  -- A worker that is idle and holds less than the model.
  pub record HasPart (model : List R) (w : WorkerState R) : Type 0 where
    pub shard : List R
    pub held : w.model_shard ≡ some shard
    pub partial : length shard < length model
    pub waits : w.status ≡ WorkerStatus.idle

  module _ (model : List R) (count size : ℕ) (now : ℕ → ℕ) where
    joined-shard_loop :
        (index : ℕ) (id : ℕ) (w : WorkerState R) (ws : Dict (WorkerState R))
        → index + suc (length ws) ≡ count
        → joined (shard_loop model count size now index ((id, w) ∷ ws)) ≡ drop (index * size) model
    unfolding joined shard_loop shard_begin shard_end slice
    joined-shard_loop index id w [] e =
        let start = index * size in
        let last : (index == count - 1) ≡ true = ground arith in
        rw (last, ← length-drop start model, take-all, append-nil)
    joined-shard_loop index id w ((j, v) ∷ ws) e =
        let start = index * size in
        let more : (index == count - 1) ≡ false = ground arith in
        let width : (index + 1) * size - start ≡ size = omega arith in
        let next : (index + 1) * size ≡ start + size = omega arith in
        ap (λ r. shard_of model count size index ++ r)
          (joined-shard_loop (index + 1) j v ws (omega arith))
        ∙ rw (more, width, next, ← drop-drop start size model)
            (take-append-drop size (drop start model))

    length-shard_of :
        (index : ℕ)
        → index < count
        → 2 ≤ count
        → 1 ≤ size
        → count * size ≤ length model
        → length (shard_of model count size index) < length model
    unfolding slice
    length-shard_of index below two one fits =
        let start = index * size in
        elim (Bool-cases (index == count - 1)) [
          | inl last ↦
              let far : size ≤ start = grind arith in
              let some' : 1 ≤ length model = grind arith in
              rw last
                (omega (arith, length-take (length model - start) (drop start model), far, some'))
          | inr more ↦
              let width : (index + 1) * size - start ≡ size = omega arith in
              let small : 2 * size ≤ count * size = grind arith in
              rw (more, width) (omega (arith, length-take size (drop start model), small))
        ]

    shard_loop-HasPart :
        (index : ℕ) (ws : Dict (WorkerState R))
        → index + length ws ≡ count
        → 2 ≤ count
        → 1 ≤ size
        → count * size ≤ length model
        → All (HasPart model) (values (shard_loop model count size now index ws))
    unfolding shard_loop shard_begin shard_end slice
    shard_loop-HasPart index [] e two one fits = tt
    shard_loop-HasPart index ((id, w) ∷ ws) e two one fits =
        let rest = shard_loop-HasPart (index + 1) ws (omega arith) two one fits in
        (
          record {
            shard = shard_of model count size index;
            held = refl;
            partial = length-shard_of index (omega arith) two one fits;
            waits = refl;
          },
          rest,
        )

module _ {R : Type 0} (model : List R) (now : ℕ → ℕ) where
  joined-all :
      (size : ℕ) (ws : Dict (WorkerState R))
      → 1 ≤ length ws
      → joined (shard_loop model (length ws) size now 0 ws) ≡ model
  joined-all size [] h = absurd (omega arith)
  joined-all size ((id, w) ∷ ws) h =
      let start : 0 * size ≡ 0 = omega arith in
      joined-shard_loop model (suc (length ws)) size now 0 id w ws (omega arith)
      ∙ ap (λ n. drop n model) start

module _ {R : Type 0} (fl : Floats R) (random : ℕ → R) (now : ℕ → ℕ) where
  -- Where a job has a model, and two workers at least but not more than the model has weights, distribution
  -- splits the model: the shards of the workers, in their order, make it up, it stays the model of the
  -- job, and every worker is idle and holds less than the whole of it.
  pub distribute_partitions :
      (job : TrainingJob R) {model : List R}
      → job.global_model ≡ some model
      → 2 ≤ length job.workers
      → length job.workers ≤ length model
      → (joined (distribute fl random now job).workers ≡ model)
        × ((distribute fl random now job).global_model ≡ some model)
        × All (HasPart model) (values (distribute fl random now job).workers)
  unfolding distribute
  distribute_partitions job {model} e two fits =
      let count = length job.workers in
      let size = length model / count in
      let same : model_of fl random job ≡ model = ground arith in
      let one : 1 ≤ size = grind arith in
      let within : count * size ≤ length model = grind arith in
      rw same (
        joined-all model now size job.workers (omega arith),
        refl,
        shard_loop-HasPart model count size now 0 job.workers (omega arith) two one within,
      )
