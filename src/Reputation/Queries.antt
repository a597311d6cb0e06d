-- ===== src/Reputation/Queries.antt =====
-- What is asked of the manager (src/reputation/manager.ts: getScore, getTopNodes, isEligible,
-- getLeaderboard, getReviewFlags, getReputation), and the decay of inactive nodes.
use abundance_protocol.Prelude.{
  ℕ, suc, ◌+◌, ◌-◌, ◌/◌, Bool, true, false, not, ◌&&◌, Option, none, some, List, [], ◌∷◌, ltb, ◌==◌,
  if◌then◌else◌, length, take,
}
use abundance_protocol.Dict.{Dict, lookup}
use abundance_protocol.Reputation.{
  Fractions, ReputationScore, ReviewFlag, Manager, at_least, ensure,
}
use abundance_protocol.Reputation.Slashing.{is_banned}
use abundance_protocol.Governance.Proposals.{sort_by}

-- !meta || meta.isBanned is false
abbrev pub is_listed : {R : Type 0} → ℕ → Manager R → Bool
is_listed node_id s = elim (lookup node_id s.metadata) [
  | none ↦ false
  | some meta ↦ not meta.banned
]

unfoldable pub get_score : {R : Type 0} → ℕ → Manager R → Option (ReputationScore R)
get_score node_id s = elim (lookup node_id s.scores) [
  | none ↦ none
  | some score ↦ if is_listed node_id s then some score else none
]

unfoldable pub get_review_flags : {R : Type 0} → ℕ → Manager R → List (ReviewFlag R)
get_review_flags node_id s = elim (lookup node_id s.metadata) [
  | none ↦ []
  | some meta ↦ meta.review_flags
]

module _ {R : Type 0} (num : Fractions R) where
  unfoldable pub is_eligible : ℕ → R → Manager R → Bool
  is_eligible node_id min_reputation s = elim (lookup node_id s.scores) [
    | none ↦ false
    | some score ↦ elim (lookup node_id s.metadata) [
      | none ↦ false
      | some meta ↦
          if meta.banned
          then false
          else if num.less score.overall min_reputation
          then false
          else if num.less score.stake_amount s.config.min_stake
          then false
          else if ltb 5 (length meta.review_flags)
          then false
          else true
    ]
  ]

  -- the filter by a skill, where one is given
  abbrev pub has_skill : ℕ → ReputationScore R → Bool
  has_skill skill score =
      if skill == 0
      then true
      else (let proficiency = elim (lookup skill score.skills) as (λ x. R) [
        | none ↦ num.lit 0 1
        | some level ↦ level
      ] in
          if num.less proficiency (num.lit 5 10) then false else true)

  -- the loop over the entries
  unfoldable pub candidates : ℕ → Manager R → Dict (ReputationScore R) → List (ReputationScore R)
  candidates skill s [] = []
  candidates skill s ((node_id, score) ∷ m) =
      let rest = candidates skill s m in
      if is_listed node_id s && has_skill skill score then score ∷ rest else rest

  unfoldable pub get_top_nodes : ℕ → ℕ → Manager R → List (ReputationScore R)
  get_top_nodes n skill s =
      take n (sort_by (λ a b. num.less b.overall a.overall) (candidates skill s s.scores))

  -- the entries with their ranks from `rank` on
  unfoldable pub ranked : ℕ → List (ReputationScore R) → List (ℕ × ReputationScore R)
  ranked rank [] = []
  ranked rank (score ∷ scores) = (rank, score) ∷ ranked (suc rank) scores

  -- The loop stops after an entry: a limit of 0 lists one.
  unfoldable pub get_leaderboard : ℕ → Manager R → List (ℕ × ReputationScore R)
  get_leaderboard limit s =
      let sorted = sort_by (λ a b. num.less b.overall a.overall) (candidates 0 s s.scores) in
      ranked 1 (take (if limit == 0 then 1 else limit) sorted)

  -- A day is 86400000 milliseconds; the whole days count.
  unfoldable pub decay_score : ℕ → R → ReputationScore R → ReputationScore R
  decay_score now decay_rate score =
      if ltb (score.last_active + 86400000) now
      then record score {
        overall = at_least num (num.lit 0 1) (
            num.sub score.overall
              (num.mul (num.lit ((now - score.last_active) / 86400000) 1) decay_rate));
      }
      else score

  unfoldable pub decay_loop : ℕ → Manager R → Dict (ReputationScore R) → Dict (ReputationScore R)
  decay_loop now s [] = []
  decay_loop now s ((node_id, score) ∷ m) =
      (node_id, if is_listed node_id s then decay_score now s.config.decay_rate score else score)
      ∷ decay_loop now s m

  unfoldable pub decay_scores : ℕ → Manager R → Manager R
  decay_scores now s = record s { scores = decay_loop now s s.scores }

  -- getReputation, which initialises a node that it does not know; the last field is whether
  -- its status is 'banned'.
  unfoldable pub get_reputation : ℕ → ℕ → Manager R → Option (ReputationScore R × Bool) × Manager R
  get_reputation node_id now s =
      let s' = ensure num node_id now s in
      (
        elim (lookup node_id s'.scores) [
          | none ↦ none
          | some score ↦ some (score, is_banned node_id s')
        ],
        s',
      )
