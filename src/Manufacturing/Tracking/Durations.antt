-- ===== src/Manufacturing/Tracking/Durations.antt =====
-- The time that a product has spent in each stage.
use abundance_protocol.Prelude.{ℕ, ◌≡◌, List, [], ◌∷◌, arith, some, ◌==◌, Bool-cases, inl, inr}
use abundance_protocol.Prelude.Int.{ℤ, pos, ◌+ℤ◌, ◌-ℤ◌, int_laws}
use abundance_protocol.Dict.{Dict, lookup, insert}
use abundance_protocol.Manufacturing.Tracking.{
  Checkpoint, TrackingRecord, Tracker, rank, duration_in, durations_loop, get_stage_durations,
}

abbrev pub total : Dict ℤ → ℤ
total [] = pos 0
total ((_, d) ∷ m) = d +ℤ total m

-- the time of the last checkpoint, or the start where there is none
abbrev pub last_time : {M : Type 0} → ℕ → List (Checkpoint M) → ℕ
last_time start [] = start
last_time start (c ∷ cs) = last_time c.timestamp cs

total-insert : (k : ℕ) (x : ℤ) (m : Dict ℤ) → total (insert k x m) ≡ total m +ℤ x -ℤ duration_in k m
total-insert k x [] = omega int_laws
total-insert k x ((j, e) ∷ m) = elim (Bool-cases (j == k)) [
  | inl same ↦
      let there : insert k x ((j, e) ∷ m) ≡ (j, x) ∷ m = ground arith in
      let held : duration_in k ((j, e) ∷ m) ≡ e = ground arith in rw (there, held) (omega int_laws)
  | inr other ↦
      let there : insert k x ((j, e) ∷ m) ≡ (j, e) ∷ insert k x m = ground arith in
      let held : duration_in k ((j, e) ∷ m) ≡ duration_in k m = ground arith in
      rw (there, held) (rw (total-insert k x m) (omega int_laws))
]

total-durations_loop :
    {M : Type 0} (cs : List (Checkpoint M)) (start : ℕ) (m : Dict ℤ)
    → total (durations_loop cs start m) ≡ total m +ℤ (pos (last_time start cs) -ℤ pos start)
unfolding durations_loop
total-durations_loop [] start m = omega int_laws
total-durations_loop (c ∷ cs) start m =
    let spent = duration_in (rank c.stage) m +ℤ (pos c.timestamp -ℤ pos start) in
    rw (total-durations_loop cs c.timestamp (insert (rank c.stage) spent m))
      (rw (total-insert (rank c.stage) spent m) (omega int_laws))

-- The durations of all stages of a product add up to the time from its start to its last checkpoint,
-- also where a stage is entered more than once.
pub get_stage_durations_total :
    {M : Type 0} (s : Tracker M) (product : ℕ) {r : TrackingRecord M}
    → lookup product s.tracking_records ≡ some r
    → total (get_stage_durations s product)
      ≡ pos (last_time r.started_at r.checkpoints) -ℤ pos r.started_at
unfolding get_stage_durations
get_stage_durations_total s product {r} found =
    rw (found, get_stage_durations)
      (rw (total-durations_loop r.checkpoints r.started_at []) (omega int_laws))
