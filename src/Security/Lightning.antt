-- ===== src/Security/Lightning.antt =====
-- src/security/lightningHardening.ts, class LightningHardening: its data and its state. Texts that
-- are only compared are numbers; a text whose letters are read is the list of its character codes.
-- Times are in milliseconds. The logs, the intervals of the timers and the simulated
-- network stay out.
pub mod Fees
pub mod Wallet
pub mod Invoices
pub mod Treasury
pub mod Channels
pub mod Htlcs
use abundance_protocol.Prelude.{ℕ, Bool, Option, none, List, []}
use abundance_protocol.Prelude.Int.{ℤ, pos}
use abundance_protocol.Dict.{Dict}

abbrev pub Text : Type 0
Text = List ℕ

pub record InvoiceRecord : Type 0 where
  pub payment_hash : ℕ
  pub amount : ℕ
  pub description : ℕ
  pub created_at : ℕ
  pub expires_at : ℕ
  pub paid : Bool
  pub nonce : ℕ

pub record ChannelState : Type 0 where
  pub channel_id : ℕ
  pub local_balance : ℕ
  pub remote_balance : ℕ
  pub htlc_count : ℕ
  pub routing_enabled : Bool
  pub last_penalty_tx : Option ℕ

pub record PendingTransaction : Type 0 where
  pub tx_id : ℕ
  pub amount : ℕ
  pub destination : ℕ
  pub proposer : ℕ
  pub signatures : Dict Text
  pub unsigned_tx : ℕ
  pub created_at : ℕ

-- The wallet's balance and its limit are counted in halves of a satoshi.
pub record LightningHardening : Type 0 where
  pub hot_wallet_balance : ℤ
  pub hot_wallet_limit : ℤ
  pub cold_storage_address : Text
  pub invoices : Dict InvoiceRecord
  pub channels : Dict ChannelState
  pub pending_transactions : Dict PendingTransaction
  pub watchtowers : List ℕ
  pub paid_hashes : List ℕ
  pub htlc_windows : Dict (List ℕ)

-- constructor: the balance is 0 and the limit 10000 satoshis
abbrev pub new_hardening : Text → LightningHardening
new_hardening cold = record {
  hot_wallet_balance = pos 0;
  hot_wallet_limit = pos 20000;
  cold_storage_address = cold;
  invoices = [];
  channels = [];
  pending_transactions = [];
  watchtowers = [];
  paid_hashes = [];
  htlc_windows = [];
}
