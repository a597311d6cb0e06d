-- ===== src/Mesh/Routing.antt =====
-- The choice of an expert for a task (src/mesh/routing.ts, class MoERouter). Loads, latencies and
-- reputations are JavaScript numbers of a type `R`. `identify` makes the text of an identifier of two
-- others. The subscription, the publication of announcements, the events and the cache, which nothing
-- fills, stay out.
pub mod Best
use abundance_protocol.Prelude.{
  ℕ, suc, ◌+◌, Bool, true, false, ◌&&◌, ◌||◌, Option, none, some, List, [], ◌∷◌, ◌++◌, ltb, ◌==◌,
  if◌then◌else◌, length, take, includes,
}
use abundance_protocol.Dict.{Dict, lookup, insert, erase, values}
use abundance_protocol.Registry.{update_key}
use abundance_protocol.Reputation.{Fractions, at_least, at_most}
use abundance_protocol.Governance.Proposals.{sort_by}

pub record Expert (R : Type 0) : Type 0 where
  pub id : ℕ
  pub peer_id : ℕ
  pub type : ℕ
  pub capabilities : List ℕ
  pub load : R
  pub latency : R
  pub reputation : R
  pub last_seen : ℕ

pub record Router (R : Type 0) : Type 0 where
  pub experts : Dict (Expert R)
  pub local_expert_types : List ℕ

-- An announcement as it is parsed; where it has no load or no timestamp, these are undefined.
pub record Announcement (R : Type 0) : Type 0 where
  pub peer_id : ℕ
  pub expert_type : ℕ
  pub capabilities : List ℕ
  pub load : Option R
  pub timestamp : Option ℕ

-- the two tests of `findExperts` on an expert
abbrev pub all_of : List ℕ → List ℕ → Bool
all_of [] capabilities = true
all_of (r ∷ rs) capabilities = includes r capabilities && all_of rs capabilities

abbrev pub suits : {R : Type 0} → ℕ → List ℕ → Expert R → Bool
suits type requirements expert =
    ((expert.type == type) || includes type expert.capabilities)
    && all_of requirements expert.capabilities

-- the loop over the experts
unfoldable pub matching : {R : Type 0} → ℕ → List ℕ → List (Expert R) → List (Expert R)
matching type requirements [] = []
matching type requirements (expert ∷ experts) =
    let rest = matching type requirements experts in
    if suits type requirements expert then expert ∷ rest else rest

unfoldable pub find_experts : {R : Type 0} → ℕ → List ℕ → Router R → List (Expert R)
find_experts type requirements s = matching type requirements (values s.experts)

unfoldable pub update_expert_load : {R : Type 0} → ℕ → R → ℕ → Router R → Router R
update_expert_load expert_id load now s = record s {
  experts =
      update_key expert_id (λ expert. record expert { load = load; last_seen = now }) s.experts;
}

-- the loop of `cleanup`, which deletes from the map that it walks through
unfoldable pub cleanup_loop : {R : Type 0} → ℕ → Dict (Expert R) → Dict (Expert R) → Dict (Expert R)
cleanup_loop now [] m = m
cleanup_loop now ((id, expert) ∷ xs) m =
    cleanup_loop now xs (if ltb (expert.last_seen + 300000) now then erase id m else m)

unfoldable pub cleanup : {R : Type 0} → ℕ → Router R → Router R
cleanup now s = record s { experts = cleanup_loop now s.experts s.experts }

-- What routing decides: the expert, with its score as the confidence, and up to three others.
pub record RoutingDecision (R : Type 0) : Type 0 where
  pub expert : Expert R
  pub confidence : R
  pub alternatives : List (Expert R)

module _ {R : Type 0} (num : Fractions R) where
  -- `local` is the text of that word.
  unfoldable pub register_local_expert : (ℕ → ℕ → ℕ) → ℕ → ℕ → List ℕ → ℕ → Router R → Router R
  register_local_expert identify local type capabilities now s =
      let id = identify type now in
      let expert : Expert R = record {
        id = id;
        peer_id = local;
        type = type;
        capabilities = capabilities;
        load = num.lit 0 1;
        latency = num.lit 0 1;
        reputation = num.lit 1 1;
        last_seen = now;
      } in
      record {
        experts = insert id expert s.experts;
        local_expert_types = s.local_expert_types ++ (type ∷ []);
      }

  unfoldable pub handle_expert_announcement : (ℕ → ℕ → ℕ) → Announcement R → ℕ → Router R → Router R
  handle_expert_announcement identify data' now s =
      let id = identify data'.peer_id data'.expert_type in
      let expert : Expert R = record {
        id = id;
        peer_id = data'.peer_id;
        type = data'.expert_type;
        capabilities = data'.capabilities;
        load = elim data'.load [ none ↦ num.lit 0 1 | some load ↦ load ];
        latency = elim data'.timestamp [
          | none ↦ num.nan
          | some timestamp ↦ num.sub (num.lit now 1) (num.lit timestamp 1)
        ];
        reputation = num.lit 1 1;
        last_seen = now;
      } in
      record s { experts = insert id expert s.experts }

  unfoldable pub calculate_score : Expert R → R
  calculate_score expert =
      let load_factor = num.sub (num.lit 1 1) (at_most num (num.lit 1 1) expert.load) in
      let latency_factor =
        at_least num (num.lit 0 1)
          (num.sub (num.lit 1 1) (num.div expert.latency (num.lit 1000 1))) in
      num.add (num.add (num.mul load_factor (num.lit 4 10)) (num.mul latency_factor (num.lit 3 10)))
        (num.mul expert.reputation (num.lit 3 10))

  -- the sorted candidates: a higher score comes first
  abbrev pub by_score : List (Expert R) → List (Expert R)
  by_score = sort_by (λ a b. num.less (calculate_score b) (calculate_score a))

  abbrev pub decision_of : List (Expert R) → Option (RoutingDecision R)
  decision_of [] = none
  decision_of (expert ∷ others) = some (record {
    expert = expert;
    confidence = calculate_score expert;
    alternatives = take 3 others;
  })

  unfoldable pub route : ℕ → List ℕ → Router R → Option (RoutingDecision R)
  route task_type requirements s = decision_of (by_score (find_experts task_type requirements s))

  -- Each route is an expert with its score.
  unfoldable pub with_scores : List (Expert R) → List (Expert R × R)
  with_scores [] = []
  with_scores (e ∷ es) = (e, calculate_score e) ∷ with_scores es

  unfoldable pub get_routes_for_type : ℕ → Router R → List (Expert R × R)
  get_routes_for_type expert_type s = with_scores (by_score (find_experts expert_type [] s))
