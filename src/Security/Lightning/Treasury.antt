-- ===== src/Security/Lightning/Treasury.antt =====
-- Spending by several signatures (lightningHardening.ts, gap 5). The text of an unsigned
-- transaction is the argument `unsigned`, and what broadcasting a transaction returns, a
-- hash of it and of the time, is `broadcast`. A signature is a text.
pub mod Signed
pub mod Threshold
use abundance_protocol.Prelude.{
  ℕ, Bool, true, false, not, ◌&&◌, ◌||◌, Option, some, none, List, [], ◌∷◌, leb, ltb, ◌==◌,
  if◌then◌else◌, length,
}
use abundance_protocol.Dict.{Dict, lookup, insert, erase}
use abundance_protocol.Registry.{at_key}
use abundance_protocol.Result.{Result, ok, err, throw_if, or_throw, ◌>>=◌, ◌>>◌}
use abundance_protocol.Security.Lightning.{Text, PendingTransaction, LightningHardening}

pub data TreasuryError : Type 0 where
  not_found invalid_signature threshold_too_high threshold_too_low : TreasuryError

pub record TreasuryConfig : Type 0 where
  pub signers : List ℕ
  pub threshold : ℕ
  pub hsm_enabled : Bool

-- `script` is the address made of the redeem script of the signers and the threshold.
unfoldable pub create_multisig_address : (List ℕ → ℕ → ℕ) → TreasuryConfig → Result TreasuryError ℕ
create_multisig_address script config = do
  throw_if (ltb (length config.signers) config.threshold) threshold_too_high
  throw_if (ltb config.threshold 2) threshold_too_low
  ok (script config.signers (if config.threshold == 0 then 3 else config.threshold))

unfoldable pub propose_spend :
    (ℕ → ℕ → ℕ → ℕ) → ℕ → ℕ → ℕ → ℕ → ℕ → LightningHardening → ℕ × LightningHardening
propose_spend unsigned amount destination proposer tx_id now s =
    let tx : PendingTransaction = record {
      tx_id = tx_id;
      amount = amount;
      destination = destination;
      proposer = proposer;
      signatures = [];
      unsigned_tx = unsigned amount destination now;
      created_at = now;
    } in
    (tx_id, record s { pending_transactions = insert tx_id tx s.pending_transactions })

-- a letter of [0-9a-f]
abbrev pub is_hex_digit : ℕ → Bool
is_hex_digit c = (leb 48 c && leb c 57) || (leb 97 c && leb c 102)

abbrev pub all_hex : Text → Bool
all_hex [] = true
all_hex (c ∷ cs) = is_hex_digit c && all_hex cs

-- Neither the transaction nor the signer is read.
unfoldable pub verify_signature : ℕ → ℕ → Text → Bool
verify_signature tx signer signature = (length signature == 128) && all_hex signature

unfoldable pub sign_on :
    ℕ → Text → PendingTransaction → Result TreasuryError (Unit {0} × PendingTransaction)
sign_on signer signature tx = do
  throw_if (not (verify_signature tx.unsigned_tx signer signature)) invalid_signature
  ok (tt, record tx { signatures = insert signer signature tx.signatures })

unfoldable pub add_signature :
    ℕ → ℕ → Text → LightningHardening → Result TreasuryError (Unit {0}) × LightningHardening
add_signature tx_id signer signature s =
    let r = at_key not_found tx_id (sign_on signer signature) s.pending_transactions in
    (r.0, record s { pending_transactions = r.1 })

-- The call up to the broadcast: the transaction that is sent, if it has signatures enough.
unfoldable pub execute_begin :
    ℕ → LightningHardening → Result TreasuryError (Option PendingTransaction)
execute_begin tx_id s = do
  tx ← or_throw (lookup tx_id s.pending_transactions) not_found
  ok (if leb 3 (length tx.signatures) then some tx else none)

-- The call after the broadcast.
unfoldable pub execute_end : ℕ → LightningHardening → LightningHardening
execute_end tx_id s = record s { pending_transactions = erase tx_id s.pending_transactions }

-- The call with nothing between its halves.
unfoldable pub execute_if_threshold_met :
    (PendingTransaction → ℕ → ℕ)
    → ℕ
    → ℕ
    → LightningHardening
    → Result TreasuryError (Option ℕ) × LightningHardening
execute_if_threshold_met broadcast tx_id now s = elim (execute_begin tx_id s) [
  | err e ↦ (err e, s)
  | ok none ↦ (ok none, s)
  | ok (some tx) ↦ (ok (some (broadcast tx now)), execute_end tx_id s)
]
