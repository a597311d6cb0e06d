-- ===== src/Security/Network/Limits.antt =====
-- The limits of NetworkHardening (src/security/networkHardening.ts: rateLimitNewIdentities,
-- rateLimitRelay, requireRelayDeposit, monitorRelayBandwidth).
pub mod Identities
use abundance_protocol.Prelude.{
  ℕ, ◌+◌, ◌*◌, Bool, true, false, Option, none, some, List, [], ◌∷◌, ◌++◌, ltb, leb, if◌then◌else◌,
  length, select,
}
use abundance_protocol.Dict.{Dict, lookup, insert}
use abundance_protocol.Security.Window.{is_recent}
use abundance_protocol.Security.Network.{RelayStats, NetworkHardening}

-- The times kept for an address.
abbrev pub timestamps_of : ℕ → NetworkHardening → List ℕ
timestamps_of ip s = elim (lookup ip s.identity_rate_limiter) [ none ↦ [] | some ts ↦ ts ]

-- Returns whether the identity is allowed; `remaining` and `resetTime` are for display. A
-- refusal keeps nothing.
unfoldable pub rate_limit_new_identities :
    ℕ → ℕ → ℕ → ℕ → NetworkHardening → Bool × NetworkHardening
rate_limit_new_identities ip window_ms max_new now s =
    let timestamps = select (is_recent window_ms now) (timestamps_of ip s) in
    if leb max_new (length timestamps) then (false, s) else (
      true,
      record s {
        identity_rate_limiter = insert ip (timestamps ++ (now ∷ [])) s.identity_rate_limiter;
      },
    )

abbrev pub stats_of : ℕ → ℕ → NetworkHardening → RelayStats
stats_of peer_id now s = elim (lookup peer_id s.relay_stats) [
  | some stats ↦ stats
  | none ↦ record { bytes_transferred = 0; last_reset = now; request_count = 0; deposit_amount = 0 }
]

abbrev pub reset_window : ℕ → RelayStats → RelayStats
reset_window now stats =
    if ltb (stats.last_reset + 60 * 1000) now
    then record stats { request_count = 0; last_reset = now }
    else stats

-- Returns whether the request is allowed, and the count.
unfoldable pub rate_limit_relay : ℕ → ℕ → ℕ → NetworkHardening → (Bool × ℕ) × NetworkHardening
rate_limit_relay peer_id max_per_min now s =
    let stats = reset_window now (stats_of peer_id now s) in
    let count = stats.request_count + 1 in
    (
      (leb count max_per_min, count),
      record s {
        relay_stats = insert peer_id (record stats { request_count = count }) s.relay_stats;
      },
    )

-- Returns whether the deposit is there, and what there is.
unfoldable pub require_relay_deposit : ℕ → ℕ → NetworkHardening → Bool × ℕ
require_relay_deposit peer_id deposit_sats s =
    let current = elim (lookup peer_id s.relay_stats) as (λ x. ℕ) [
      | none ↦ 0
      | some stats ↦ stats.deposit_amount
    ] in
    (leb deposit_sats current, current)

-- Whether the limit is exceeded.
unfoldable pub monitor_relay_bandwidth : ℕ → ℕ → NetworkHardening → Bool
monitor_relay_bandwidth relay_id max_bytes s = elim (lookup relay_id s.relay_stats) [
  | none ↦ false
  | some stats ↦ ltb max_bytes stats.bytes_transferred
]
