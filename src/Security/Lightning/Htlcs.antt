-- ===== src/Security/Lightning/Htlcs.antt =====
-- The guards on HTLCs (lightningHardening.ts, gap 7).
pub mod Flood
use abundance_protocol.Prelude.{
  ℕ, ◌+◌, Bool, true, false, none, some, Option, List, [], ◌∷◌, ◌++◌, ltb, leb, if◌then◌else◌,
  length, select,
}
use abundance_protocol.Dict.{Dict, lookup, insert}
use abundance_protocol.Security.Window.{is_recent}
use abundance_protocol.Security.Lightning.{ChannelState, LightningHardening}

unfoldable pub enforce_htlc_limits : ℕ → ℕ → LightningHardening → Bool
enforce_htlc_limits channel_id max_concurrent s = elim (lookup channel_id s.channels) [
  | none ↦ false
  | some channel ↦ if leb max_concurrent channel.htlc_count then false else true
]

unfoldable pub enforce_dust_limit : ℕ → ℕ → Bool
enforce_dust_limit amount dust_threshold = if ltb amount dust_threshold then false else true

abbrev pub window_of : ℕ → LightningHardening → List ℕ
window_of channel_id s = elim (lookup channel_id s.htlc_windows) [ some w ↦ w | none ↦ [] ]

unfoldable pub detect_htlc_flood : ℕ → ℕ → ℕ → LightningHardening → Bool × LightningHardening
detect_htlc_flood channel_id window_ms now s =
    let valid_window = select (is_recent window_ms now) (window_of channel_id s ++ (now ∷ [])) in
    (
      ltb 100 (length valid_window),
      record s { htlc_windows = insert channel_id valid_window s.htlc_windows },
    )
