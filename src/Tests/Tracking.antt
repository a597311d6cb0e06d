-- ===== src/Tests/Tracking.antt =====
-- A product from its production to a dispute; metadata is a number, and its hash is one more.
use abundance_protocol.Prelude.{ℕ, ◌+◌, ◌≡◌, refl, true, Option, none, some, List, [], ◌∷◌, arith}
use abundance_protocol.Prelude.Int.{pos, ◌-ℤ◌}
use abundance_protocol.Dict.{Every, Every-insert}
use abundance_protocol.Manufacturing.Tracking.{
  add_checkpoint, is_verified_actor, production_start, dispute, Tracker, TrackingError, not_found,
  register_actor, initialize_tracking, record_checkpoint, batch_record_checkpoints,
  get_stage_durations,
}
use abundance_protocol.Manufacturing.Tracking.Trails.{IsTraced, batch_record_checkpoints-IsTraced}
use abundance_protocol.Manufacturing.Tracking.Durations.{total, get_stage_durations_total}

keccak : ℕ → ℕ
keccak n = n + 1

abbrev started : Tracker ℕ
unfolding initialize_tracking register_actor
started = initialize_tracking 7 1 none 100 (
    register_actor (record { address = 1; role = 1; name = 3; verified = true })
      (record { tracking_records = []; verified_actors = []; metadata_store = [] }))

abbrev produced : List (ℕ × Option TrackingError) × Tracker ℕ
produced = batch_record_checkpoints keccak 1 (7 ∷ 8 ∷ []) production_start 4 (some 5) 130 2 started

abbrev disputed : Tracker ℕ
disputed = (batch_record_checkpoints keccak 1 (7 ∷ []) dispute 4 none 150 2 produced.1).1

-- One of the two products is not tracked.
one_refused : produced.0 ≡ (7, none) ∷ (8, some not_found) ∷ []
unfolding batch_record_checkpoints record_checkpoint started is_verified_actor
one_refused = refl

started-IsTraced : Every (λ _ r. IsTraced keccak r) started.tracking_records
unfolding started
started-IsTraced =
    Every-insert 7 _ [] (λ k v e. absurd (ground arith))
      (record { ordered = refl; finished = refl; vouched = tt })

batch_record_checkpoints-IsTraced_example :
    Every (λ _ r. IsTraced keccak r) produced.1.tracking_records
batch_record_checkpoints-IsTraced_example =
    batch_record_checkpoints-IsTraced keccak 1 (7 ∷ 8 ∷ []) production_start 4 (some 5) 130 2
      started started-IsTraced

get_stage_durations_total_example : total (get_stage_durations disputed 7) ≡ pos 150 -ℤ pos 100
unfolding batch_record_checkpoints record_checkpoint started is_verified_actor add_checkpoint
get_stage_durations_total_example = get_stage_durations_total disputed 7 refl
