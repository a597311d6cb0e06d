-- ===== src/Reputation/Tasks.antt =====
-- Completed and failed tasks (src/reputation/manager.ts: recordTaskCompletion, recordTaskFailure,
-- checkReputationJump). The dates that one call takes are one argument.
use abundance_protocol.Prelude.{
  ◌≡◌, refl, ℕ, ◌+◌, ◌*◌, Bool, Option, none, some, List, [], ◌∷◌, ◌++◌, ltb, leb, ◌==◌,
  if◌then◌else◌, select,
}
use abundance_protocol.Dict.{Dict, lookup, insert}
use abundance_protocol.Reputation.{
  Fractions, ReputationConfig, ReputationScore, NodeMetadata, Manager, jumped, at_least, at_most,
  clamp, flag, ensure, calculate_overall,
}

pub data FailureReason : Type 0 where
  timeout incorrect abandoned : FailureReason

module _ {R : Type 0} (num : Fractions R) where
  -- What both methods do around their changes: a banned node is left alone.
  unfoldable pub on_node :
      ℕ
      → ℕ
      → (ReputationScore R → NodeMetadata R → ReputationScore R × NodeMetadata R)
      → Manager R
      → Manager R
  on_node node_id now g s =
      let s' = ensure num node_id now s in
      elim (lookup node_id s'.scores) [
        | none ↦ s'
        | some score ↦ elim (lookup node_id s'.metadata) [
          | none ↦ s'
          | some meta ↦
              if meta.banned
              then s'
              else (let r = g score meta in
                  record s' {
                    scores = insert node_id r.0 s'.scores;
                    metadata = insert node_id r.1 s'.metadata;
                  })
        ]
      ]

  -- Math.min(...) of the scores, where there is one
  unfoldable pub least : List (ℕ × R) → Option R
  least [] = none
  least ((_, score) ∷ hs) = elim (least hs) [
    | none ↦ some score
    | some low ↦ some (at_most num low score)
  ]

  unfoldable pub check_reputation_jump :
      ReputationConfig R → R → ℕ → NodeMetadata R → NodeMetadata R
  check_reputation_jump config score now meta =
      elim (least (
        select (λ h. leb now (h.0 + config.jump_detection_window * 60 * 60 * 1000))
          meta.reputation_history)) [
            | none ↦ meta
            | some low ↦
                if num.less config.jump_threshold (num.sub score low)
                then flag num (jumped (num.sub score low)) meta
                else meta
          ]

  -- (average * count + x * weight) / (count + weight)
  abbrev pub running : R → ℕ → R → R → R
  running average count x weight =
      num.div (num.add (num.mul average (num.lit count 1)) (num.mul x weight))
        (num.add (num.lit count 1) weight)

  abbrev pub rate : ℕ → ℕ → R
  rate completed failed = num.div (num.lit completed 1) (num.lit (completed + failed) 1)

  -- The skill of the task's type, if it has one.
  unfoldable pub learn : ℕ → R → R → Dict R → Dict R
  learn task_type quality weight skills =
      if task_type == 0
      then skills
      else (let current = elim (lookup task_type skills) as (λ x. R) [
        | none ↦ num.lit 0 1
        | some level ↦ level
      ] in
          insert task_type
            (clamp num
              (num.add current (num.mul (num.mul (num.sub quality current) (num.lit 3 10)) weight)))
            skills)

  -- The score of a completed task; `weighted` is whether the node is new.
  unfoldable pub completed_score : Bool → R → R → ℕ → ℕ → ReputationScore R → ReputationScore R
  completed_score weighted quality response_time task_type now score =
      let normalized =
        at_least num (num.lit 0 1) (at_most num (num.lit 1 1) (num.div quality (num.lit 5 1))) in
      let weight = if weighted then num.lit 5 10 else num.lit 1 1 in
      let old = score.completed_tasks in
      let score' = record score {
        completed_tasks = old + 1;
        avg_quality = running score.avg_quality old normalized weight;
        avg_response_time = running score.avg_response_time old response_time weight;
        success_rate = rate (old + 1) score.failed_tasks;
        skills = learn task_type normalized weight score.skills;
        last_active = now;
      } in
      let overall = calculate_overall num score' in
      record score' {
        overall =
            if weighted
            then num.add score.overall (num.mul (num.sub overall score.overall) (num.lit 5 10))
            else overall;
      }

  abbrev pub thirty_days : ℕ
  thirty_days = 30 * 24 * 60 * 60 * 1000

  unfoldable pub completed_metadata : ReputationConfig R → R → ℕ → NodeMetadata R → NodeMetadata R
  completed_metadata config overall now meta =
      let meta' =
        check_reputation_jump config overall now
          (record meta { total_task_count = meta.total_task_count + 1 }) in
      record meta' {
        reputation_history =
            select (λ h. ltb now (h.0 + thirty_days))
              (meta'.reputation_history ++ ((now, overall) ∷ []));
      }

  -- The weight of a task is that of the count before it.
  unfoldable pub record_task_completion : ℕ → R → R → ℕ → ℕ → Manager R → Manager R
  record_task_completion node_id quality response_time task_type now s =
      on_node node_id now
        (λ score meta.
          let score' =
            completed_score (ltb meta.total_task_count 10) quality response_time task_type now
              score in
          (score', completed_metadata s.config score'.overall now meta))
        s

  abbrev pub penalty : FailureReason → R
  penalty timeout = num.lit 2 100
  penalty incorrect = num.lit 5 100
  penalty abandoned = num.lit 15 100

  unfoldable pub failed_score : FailureReason → ℕ → ReputationScore R → ReputationScore R
  failed_score reason now score =
      let score' = record score {
        failed_tasks = score.failed_tasks + 1;
        success_rate = rate score.completed_tasks (score.failed_tasks + 1);
        overall = at_least num (num.lit 0 1) (num.sub score.overall (penalty reason));
        last_active = now;
      } in
      record score' { overall = calculate_overall num score' }

  unfoldable pub record_task_failure : ℕ → FailureReason → ℕ → Manager R → Manager R
  record_task_failure node_id reason now = on_node node_id now (λ score meta.
      (failed_score reason now score, record meta { total_task_count = meta.total_task_count + 1 }))

  -- The reason of a failure makes no difference: the overall score is computed anew after the penalty.
  failed_score_reason :
      (r r' : FailureReason) (now : ℕ) (score : ReputationScore R)
      → failed_score r now score ≡ failed_score r' now score
  unfolding failed_score calculate_overall
  failed_score_reason r r' now score = refl
