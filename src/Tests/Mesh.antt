-- ===== src/Tests/Mesh.antt =====
-- Two experts for one type of task, with scores counted in hundredths.
use abundance_protocol.Governance.Proposals.{insert_by, sort_by}
use abundance_protocol.Prelude.{ℕ, ◌≡◌, refl, [], ◌∷◌, false, ltb, arith}
use abundance_protocol.Dict.{values}
use abundance_protocol.Mesh.Routing.{
  matching, find_experts, Expert, Router, RoutingDecision, calculate_score, route,
}
use abundance_protocol.Sorting.{IsOf}
use abundance_protocol.Mesh.Routing.Best.{Meets, route_best}
use abundance_protocol.Tests.Reputation.{hundredths}

abbrev slow : Expert ℕ
slow = record {
  id = 1;
  peer_id = 1;
  type = 5;
  capabilities = 7 ∷ [];
  load = 90;
  latency = 50000;
  reputation = 100;
  last_seen = 1;
}

abbrev fast : Expert ℕ
fast = record {
  id = 2;
  peer_id = 2;
  type = 6;
  capabilities = 5 ∷ 7 ∷ [];
  load = 10;
  latency = 1000;
  reputation = 100;
  last_seen = 1;
}

abbrev two_experts : Router ℕ
two_experts = record { experts = (1, slow) ∷ (2, fast) ∷ []; local_expert_types = [] }

abbrev chosen : RoutingDecision ℕ
chosen = record {
  expert = fast;
  confidence = calculate_score hundredths fast;
  alternatives = slow ∷ [];
}

route_best_example :
    IsOf fast (values two_experts.experts)
    × Meets 5 (7 ∷ []) fast
    × ((e : Expert ℕ)
        → IsOf e (values two_experts.experts)
        → Meets 5 (7 ∷ []) e
        → ltb (calculate_score hundredths fast) (calculate_score hundredths e) ≡ false)
unfolding route sort_by find_experts matching insert_by calculate_score
route_best_example =
    route_best hundredths (λ a b e. ground (arith, e)) (λ a. Unit)
      (λ a b c real e e'. ground (arith, e, e')) 5 (7 ∷ []) two_experts chosen (λ e m. tt) refl
