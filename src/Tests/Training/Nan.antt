-- ===== src/Tests/Training/Nan.antt =====
-- An aggregation over numbers of which one is NaN.
use abundance_protocol.Prelude.{
  if◌then◌else◌, ℕ, ◌+◌, ◌-◌, ◌*◌, ◌/◌, ◌≡◌, refl, Bool, false, Option, none, some, List, [], ◌∷◌,
  ltb, arith, get_elem?,
}
use abundance_protocol.Prelude.Int.{pos}
use abundance_protocol.Dict.{Dict}
use abundance_protocol.Governance.Proposals.{sort_by, insert_by}
use abundance_protocol.Training.Coordinator.{
  Floats, CoordinatorConfig, uncompressed, JobStatus, WorkerStatus, TrainingJob, b7,
}
use abundance_protocol.Training.Coordinator.Norms.{
  sum_squares, compute_gradient_norm, calculate_median,
}
use abundance_protocol.Training.Coordinator.Aggregation.{
  AggregationResult, norms_of, accumulate, divide_all, sum_step, sum_loop, compressed_by,
  finish_aggregation, aggregate,
}
use abundance_protocol.Training.Coordinator.Aggregation.Weights.{HasNan, aggregate_ruins}

abbrev lift : (ℕ → ℕ → ℕ) → Option ℕ → Option ℕ → Option ℕ
lift f (some a) (some b) = some (f a b)
lift f _ _ = none

abbrev less : Option ℕ → Option ℕ → Bool
less (some a) (some b) = ltb a b
less _ _ = false

abbrev floats : Floats (Option ℕ)
floats = record {
  num = record {
    add = lift ◌+◌;
    sub = lift ◌-◌;
    mul = lift ◌*◌;
    div = lift ◌/◌;
    floor = λ a. a;
    less = less;
    max = lift (λ a b. if ltb a b then b else a);
    min = lift (λ a b. if ltb b a then b else a);
    nan = none;
    lit = λ n d. some (n / d);
  };
  sqrt = λ a. a;
  single = λ a. a;
  infinity = some 1000000;
  nan = none;
  whole = λ a. elim a [ none ↦ 0 | some n ↦ n ];
}

lift-none : (f : ℕ → ℕ → ℕ) (a : Option ℕ) → lift f a none ≡ none
lift-none f none = refl
lift-none f (some a) = refl

floats-HasNan : HasNan floats
floats-HasNan = record { times = lift-none ◌*◌; minus = lift-none ◌-◌; stored = refl }

abbrev job : TrainingJob (Option ℕ)
job = record {
  job_id = 1;
  model_name = [];
  model_size = b7;
  status = JobStatus.training;
  workers =
      (
        7,
        record {
          node_id = 7;
          status = WorkerStatus.idle;
          current_batch = 0;
          local_loss = some 0;
          gradient_norm = some 1;
          last_heartbeat = 0;
          model_shard = none;
          reputation_score = pos 100;
        },
      )
      ∷ [];
  current_epoch = 4;
  total_epochs = 10;
  current_loss = some 30;
  best_loss = some 20;
  started_at = 0;
  checkpoints = [];
  config = record { epochs = 10; batch_size = 2; learning_rate = some 1; dataset_path = 0 };
  global_model = some (some 5 ∷ some 4 ∷ []);
  aggregation_buffer = none;
  last_aggregation_at = none;
  throughput_history = [];
}

abbrev config : CoordinatorConfig
config = record {
  min_workers = 1;
  max_workers = 20;
  checkpoint_interval_ms = 1000;
  gradient_compression_level = uncompressed;
}

abbrev one_gradient : Dict (List (Option ℕ))
one_gradient = (7, some 2 ∷ []) ∷ []

abbrev aggregated : AggregationResult (Option ℕ)
aggregated = record {
  aggregated_gradient = some 2 ∷ [];
  excluded_workers = [];
  reputation_penalties = [];
}

aggregate_ruins_example :
    (left : List (Option ℕ)) × ((aggregate floats config one_gradient
        (λ i. 0)
        50
        job).1.global_model
      ≡ some left)
    × (get_elem? left 1 ≡ some none)
unfolding aggregate norms_of sum_squares compute_gradient_norm calculate_median sort_by insert_by
    sum_loop sum_step accumulate finish_aggregation compressed_by divide_all
aggregate_ruins_example =
    aggregate_ruins floats floats-HasNan config one_gradient (λ i. 0) 50 job {result = aggregated} 1
      refl refl (omega arith) (omega arith)
