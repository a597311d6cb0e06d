-- ===== src/Security/Lightning/Channels.antt =====
-- Channels (lightningHardening.ts, gaps 2, 6 and 8). A ratio is a fraction of binary64: `divide` and
-- `less` are its division and its order, and `whole` makes a fraction of a whole number. The hash
-- of a penalty transaction is an argument.
use abundance_protocol.Prelude.{
  ℕ, ◌+◌, Bool, true, false, not, ◌&&◌, ◌||◌, none, some, Option, ltb, ◌==◌, if◌then◌else◌, include,
}
use abundance_protocol.Dict.{lookup, insert}
use abundance_protocol.Result.{Result, ok, err}
use abundance_protocol.Registry.{at_key, update_key}
use abundance_protocol.Security.Lightning.{ChannelState, LightningHardening}

pub data ChannelError : Type 0 where
  channel_not_found insecure_url registration_failed : ChannelError

-- `https` is whether the address begins with https://, `answered` whether the response is ok.
unfoldable pub register_watchtower :
    Bool → Bool → ℕ → LightningHardening → Result ChannelError (Unit {0}) × LightningHardening
register_watchtower https answered url s =
    if not https
    then (err insecure_url, s)
    else if not answered
    then (err registration_failed, s)
    else (ok tt, record s { watchtowers = include url s.watchtowers })

-- Returns the penalty transaction's hash, of which `penalty` is given the sum of both balances.
unfoldable pub penalty_on : (ℕ → ℕ) → ChannelState → Result ChannelError (ℕ × ChannelState)
penalty_on penalty channel =
    let id = penalty (channel.local_balance + channel.remote_balance) in
    ok (id, record channel { last_penalty_tx = some id })

unfoldable pub pre_sign_penalty_tx :
    (ℕ → ℕ) → ℕ → LightningHardening → Result ChannelError ℕ × LightningHardening
pre_sign_penalty_tx penalty channel_id s =
    let r = at_key channel_not_found channel_id (penalty_on penalty) s.channels in
    (r.0, record s { channels = r.1 })

-- A node's view of a channel that it does not know yet.
abbrev pub default_channel : ℕ → ChannelState
default_channel channel_id = record {
  channel_id = channel_id;
  local_balance = 500000;
  remote_balance = 500000;
  htlc_count = 0;
  routing_enabled = true;
  last_penalty_tx = none;
}

abbrev pub channel_of : ℕ → LightningHardening → ChannelState
channel_of channel_id s = elim (lookup channel_id s.channels) [
  | some c ↦ c
  | none ↦ default_channel channel_id
]

module _ {F : Type 0} (whole : ℕ → F) (divide : F → F → F) (less : F → F → Bool) where
  unfoldable pub ratio : ChannelState → F
  ratio channel =
      if ltb 0 (channel.local_balance + channel.remote_balance)
      then divide (whole channel.local_balance)
          (whole (channel.local_balance + channel.remote_balance))
      else whole 0

  unfoldable pub monitor_channel_liquidity :
      ℕ → LightningHardening → (ℕ × ℕ × F) × LightningHardening
  monitor_channel_liquidity channel_id s =
      let channel = channel_of channel_id s in
      (
        (channel.local_balance, channel.remote_balance, ratio channel),
        record s { channels = insert channel_id channel s.channels },
      )

  unfoldable pub alert_low_liquidity : ℕ → F → LightningHardening → Bool
  alert_low_liquidity channel_id threshold s = elim (lookup channel_id s.channels) [
    | none ↦ false
    | some channel ↦ if less (ratio channel) threshold then true else false
  ]

  -- `safe` is 0.15
  unfoldable pub auto_disable_routing : F → ℕ → LightningHardening → LightningHardening
  auto_disable_routing safe channel_id s = record s {
    channels =
        update_key channel_id
          (λ channel.
            if less (ratio channel) safe && channel.routing_enabled
            then record channel { routing_enabled = false }
            else channel)
          s.channels;
  }

-- What validateBOLT4Compliance reads of a route; `hops` is none where it is not an array.
pub record Route : Type 0 where
  pub has_onion_packet : Bool
  pub hops : Option ℕ
  pub version : Option ℕ

abbrev pub has_hops : Route → Bool
has_hops route = elim route.hops [ some n ↦ ltb 0 n | none ↦ false ]

abbrev pub has_version : Route → Bool
has_version route = elim route.version [ some v ↦ v == 0 | none ↦ false ]

unfoldable pub validate_bolt4_compliance : Option Route → Bool
validate_bolt4_compliance none = false
validate_bolt4_compliance (some route) =
    if not route.has_onion_packet || not (has_hops route) || not (has_version route)
    then false
    else elim route.hops [ some n ↦ if ltb 20 n then false else true | none ↦ true ]
