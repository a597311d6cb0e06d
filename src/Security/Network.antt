-- ===== src/Security/Network.antt =====
-- src/security/networkHardening.ts, class NetworkHardening: its state, and the checks that change
-- nothing. Identifiers and texts are numbers, a reputation is counted in hundredths, and a version is
-- the list of the numbers between its dots. The events that are emitted stay out.
pub mod Limits
pub mod Peers
use abundance_protocol.Prelude.{
  ℕ, zero, suc, ◌+◌, ◌-◌, ◌*◌, Bool, true, false, not, ◌&&◌, ◌||◌, Option, none, some, List, [],
  ◌∷◌, ltb, leb, ◌==◌, if◌then◌else◌, length, get_elem?, includes,
}
use abundance_protocol.Dict.{Dict, lookup, insert}

pub record RelayStats : Type 0 where
  pub bytes_transferred : ℕ
  pub last_reset : ℕ
  pub request_count : ℕ
  pub deposit_amount : ℕ

pub record NetworkHardening : Type 0 where
  pub reputation_table : Dict ℕ
  pub identity_rate_limiter : Dict (List ℕ)
  pub relay_stats : Dict RelayStats
  pub active_negotiations : List ℕ
  pub protocol_version : List ℕ

-- `get(peerId) || 1.0`: a reputation of 0 counts as a missing one
abbrev pub reputation_of : Option ℕ → ℕ
reputation_of none = 100
reputation_of (some r) = if r == 0 then 100 else r

unfoldable pub reputation_gate_dht : ℕ → ℕ → NetworkHardening → Bool
reputation_gate_dht peer_id min_reputation s =
    if ltb (reputation_of (lookup peer_id s.reputation_table)) min_reputation then false else true

-- the loop over the peers
unfoldable pub count_asns : Dict ℕ → List ℕ → ℕ → Dict ℕ → Dict ℕ
count_asns peer_asns [] unknown counts = counts
count_asns peer_asns (peer_id ∷ peers) unknown counts =
    let asn = elim (lookup peer_id peer_asns) as (λ x. ℕ) [
      | none ↦ unknown
      | some a ↦ if a == 0 then unknown else a
    ] in
    let count = elim (lookup asn counts) as (λ x. ℕ) [ none ↦ 0 | some c ↦ c ] in
    count_asns peer_asns peers unknown (insert asn (count + 1) counts)

-- Returns the network of the alert, if there is one, and the number of peers.
abbrev pub alert_of : Dict ℕ → ℕ → Option ℕ × ℕ
alert_of ((asn, count) ∷ []) peers = (some asn, count)
alert_of _ peers = (none, peers)

-- `unknown` is the text of that word.
unfoldable pub detect_eclipse : ℕ → List ℕ → Dict ℕ → Option ℕ × ℕ
detect_eclipse unknown connected_peers peer_asns =
    if length connected_peers == 0
    then (none, 0)
    else alert_of (count_asns peer_asns connected_peers unknown []) (length connected_peers)

-- Returns whether the stake is valid, and what is missing.
unfoldable pub verify_stake : ℕ → ℕ → Bool × ℕ
verify_stake stake_amount min_stake =
    if leb min_stake stake_amount then (true, 0) else (false, min_stake - stake_amount)

-- `a > b`, which is false where one of them is undefined
abbrev pub above : Option ℕ → Option ℕ → Bool
above (some a) (some b) = ltb b a
above _ _ = false

-- the loop over the three parts from the i-th on
unfoldable pub version_loop : ℕ → ℕ → List ℕ → List ℕ → Bool
version_loop zero i peer least = true
version_loop (suc n) i peer least =
    let rest = version_loop n (i + 1) peer least in
    if above (get_elem? peer i) (get_elem? least i)
    then true
    else if above (get_elem? least i) (get_elem? peer i)
    then false
    else rest

unfoldable pub enforce_min_protocol_version : List ℕ → NetworkHardening → Bool
enforce_min_protocol_version version s = version_loop 3 0 version s.protocol_version

pub record StunCandidate : Type 0 where
  pub nonce : ℕ
  pub timestamp : ℕ

-- `Math.abs(now - timestamp)`
abbrev pub distance : ℕ → ℕ → ℕ
distance a b = if leb a b then b - a else a - b

unfoldable pub validate_stun : StunCandidate → ℕ → ℕ → Bool
validate_stun candidate expected_nonce now =
    if not (candidate.nonce == expected_nonce)
    then false
    else if ltb (5 * 60 * 1000) (distance now candidate.timestamp)
    then false
    else true

unfoldable pub reject_unsolicited_candidates : ℕ → NetworkHardening → Bool
reject_unsolicited_candidates candidate_id s =
    if not (includes candidate_id s.active_negotiations) then false else true
