-- ===== src/Tests/Hardening.antt =====
-- One address that asks four times, a node that votes twice, and a quorum.
use abundance_protocol.Prelude.{
  true, ℕ, ◌≤◌, ◌≡◌, refl, none, some, List, [], ◌∷◌, ◌++◌, arith, length, select, inl, inr,
}
use abundance_protocol.Security.Window.{is_recent, admitted}
use abundance_protocol.Security.Network.{
  version_loop, NetworkHardening, enforce_min_protocol_version,
}
use abundance_protocol.Security.Network.Limits.Identities.{identities, identities_few}
use abundance_protocol.Security.Agreement.{
  check_votes, ConsensusHardening, Ballot, Evidence, detect_double_vote,
}
use abundance_protocol.Security.Agreement.Geography.{
  GeoVoter, regions, asns, enforce_geo_diversity, enforce_geo_diversity_iff,
}
use abundance_protocol.Prelude.{◌↔◌, ◌*◌, count, true}
use abundance_protocol.Security.Agreement.Votes.{Check, check_all, double_vote_found}

abbrev network : NetworkHardening
network = record {
  reputation_table = [];
  identity_rate_limiter = [];
  relay_stats = [];
  active_negotiations = [];
  protocol_version = 2 ∷ 0 ∷ 0 ∷ [];
}

newer_accepted : enforce_min_protocol_version (2 ∷ 1 ∷ []) network ≡ true
unfolding enforce_min_protocol_version version_loop
newer_accepted = refl

identities_few_example :
    length (
      select
        (is_recent 100 60)
        (admitted 100 3 (identities 5 100 3) ((10 ∷ 20 ∷ 30 ∷ []) ++ (60 ∷ [])) network))
    ≤ 3
identities_few_example =
    identities_few 5 100 3 0 60 (10 ∷ 20 ∷ 30 ∷ []) network
      (omega arith, (omega arith, (omega arith, (omega arith, tt)))) refl

abbrev agreement : ConsensusHardening
agreement = record { vote_history = []; view_change_history = []; leader_history = [] }

abbrev ballot_for : ℕ → ℕ → Ballot
ballot_for round_id vote = record {
  round_id = round_id;
  vote = vote;
  timestamp = none;
  signature = none;
}

abbrev voted : ConsensusHardening
voted = (detect_double_vote 7 (ballot_for 1 3 ∷ []) 50 agreement).1

abbrev other_checks : List Check
other_checks = (8, ballot_for 1 4 ∷ [], 60) ∷ (7, ballot_for 2 4 ∷ [], 70) ∷ []

double_vote_found_example :
    (x : Evidence) × ((detect_double_vote 7
        (ballot_for 3 5 ∷ ballot_for 1 4 ∷ [])
        80
        (check_all other_checks voted)).0
      ≡ some x)
unfolding detect_double_vote check_votes
double_vote_found_example =
    double_vote_found 7 1 3 other_checks (ballot_for 3 5 ∷ ballot_for 1 4 ∷ []) 80 voted
      (record { round_id = 1; vote = 3; timestamp = 50; signature = 0 }, refl, refl)
      (inr (inl (refl, ground arith)))

abbrev quorum : List GeoVoter
quorum =
    record { node_id = 1; region = 4; asn = 9 }
    ∷ record { node_id = 2; region = 4; asn = 8 }
    ∷ record { node_id = 3; region = 5; asn = 9 }
    ∷ []

enforce_geo_diversity_iff_example :
    ((enforce_geo_diversity quorum 70).0 ≡ true)
    ↔ ((k : ℕ) → (count k (regions quorum) * 100 ≤ 3 * 70) × (count k (asns quorum) * 100 ≤ 3 * 70))
enforce_geo_diversity_iff_example = enforce_geo_diversity_iff quorum 70
