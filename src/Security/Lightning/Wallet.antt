-- ===== src/Security/Lightning/Wallet.antt =====
-- The hot wallet (lightningHardening.ts, gap 1). Amounts are counted in halves of a satoshi, since half
-- of the limit is kept; a fee is whole. What the fee oracles answer is an argument, `none` where the
-- estimate throws. The transaction's identifier is random and stays out.
use abundance_protocol.Prelude.{
  ℕ, ◌*◌, Bool, true, false, not, ◌&&◌, ◌||◌, Option, none, some, ◌∷◌, leb, ◌==◌, if◌then◌else◌,
  length, includes,
}
use abundance_protocol.Prelude.Int.{ℤ, pos, ◌+ℤ◌, ◌-ℤ◌, ltb_ℤ}
use abundance_protocol.Result.{Result, ok, err, throw_if, ◌>>◌}
use abundance_protocol.Security.Lightning.{Text, LightningHardening}

pub data WalletError : Type 0 where
  insufficient_balance invalid_address no_fee_estimate : WalletError

-- /^bc1|[13]/: begins with bc1, or has a 1 or a 3 anywhere
abbrev pub starts_bc1 : Text → Bool
starts_bc1 (b ∷ c ∷ d ∷ _) = (b == 98) && (c == 99) && (d == 49)
starts_bc1 _ = false

unfoldable pub validate_bitcoin_address : Text → Bool
validate_bitcoin_address address =
    (starts_bc1 address || includes 49 address || includes 51 address)
    && leb 26 (length address)
    && leb (length address) 74

-- The guards, which stand before the estimate is awaited.
unfoldable pub sweep_check : ℤ → Text → LightningHardening → Result WalletError (Unit {0})
sweep_check amount cold_address s = do
  throw_if (ltb_ℤ s.hot_wallet_balance amount) insufficient_balance
  throw_if (not (validate_bitcoin_address cold_address)) invalid_address
  ok tt

-- What happens once the fee is there.
unfoldable pub sweep_debit : ℤ → ℕ → LightningHardening → LightningHardening
sweep_debit amount fee s = record s {
  hot_wallet_balance = s.hot_wallet_balance -ℤ (amount +ℤ pos (2 * fee));
}

unfoldable pub sweep_to_cold_storage :
    ℤ → Text → Option ℕ → LightningHardening → Result WalletError (Unit {0}) × LightningHardening
sweep_to_cold_storage amount cold_address fee s = elim (sweep_check amount cold_address s) [
  | err e ↦ (err e, s)
  | ok _ ↦ elim fee [ none ↦ (err no_fee_estimate, s) | some f ↦ (ok tt, sweep_debit amount f s) ]
]

-- Returns whether the balance is within the limit, and the amount of the sweep that it starts.
unfoldable pub enforce_hot_wallet_limit :
    ℕ → LightningHardening → (Bool × Option ℤ) × LightningHardening
enforce_hot_wallet_limit max_sats s =
    let s' = record s { hot_wallet_limit = pos (2 * max_sats) } in
    if ltb_ℤ (pos (2 * max_sats)) s.hot_wallet_balance
    then (
      (
        false,
        if length s.cold_storage_address == 0
            then none
            else some (s.hot_wallet_balance -ℤ pos max_sats),
      ),
      s',
    )
    else ((true, none), s')
