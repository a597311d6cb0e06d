-- ===== src/Payments/Htlc.antt =====
-- Hash time-locked contracts (src/payments/lightning/htlc.ts, HTLCManager). `hex` is the hexadecimal
-- text of a secret's bytes, `digest` sha256 of the bytes that such a text stands for, and the
-- identifier of a contract is the time of its creation, as in 'htlc-' + Date.now().
pub mod Settlement
use abundance_protocol.Prelude.{ℕ, Bool, true, false, Option, none, some, List, ◌==◌, not, select}
use abundance_protocol.Dict.{Dict, lookup, insert, values}
use abundance_protocol.Registry.{at_key}
use abundance_protocol.Result.{Result, ok, err, throw_if, ◌>>=◌, ◌>>◌}

pub data HtlcStatus : Type 0 where
  pending settled cancelled : HtlcStatus

pub record HtlcContract : Type 0 where
  pub id : ℕ
  pub payment_hash : ℕ
  pub preimage : ℕ
  pub sats : ℕ
  pub expiry_blocks : ℕ
  pub status : HtlcStatus

pub data HtlcError : Type 0 where
  not_found hash_mismatch : HtlcError

module _ (hex digest : ℕ → ℕ) where
  abbrev pub new_contract : ℕ → ℕ → ℕ → ℕ → HtlcContract
  new_contract secret sats expiry now = record {
    id = now;
    payment_hash = digest (hex secret);
    preimage = hex secret;
    sats = sats;
    expiry_blocks = expiry;
    status = pending;
  }

  unfoldable pub create : ℕ → ℕ → ℕ → ℕ → Dict HtlcContract → HtlcContract × Dict HtlcContract
  create secret sats expiry now m =
      (new_contract secret sats expiry now, insert now (new_contract secret sats expiry now) m)

  unfoldable pub settle_on : ℕ → HtlcContract → Result HtlcError (Unit {0} × HtlcContract)
  settle_on preimage c = do
    throw_if (not (digest preimage == c.payment_hash)) hash_mismatch
    ok (tt, record c { status = settled })

  unfoldable pub settle :
      ℕ → ℕ → Dict HtlcContract → Result HtlcError (Unit {0}) × Dict HtlcContract
  settle i preimage = at_key not_found i (settle_on preimage)

unfoldable pub cancel_on : HtlcContract → Result HtlcError (Unit {0} × HtlcContract)
cancel_on c = ok (tt, record c { status = cancelled })

unfoldable pub cancel : ℕ → Dict HtlcContract → Result HtlcError (Unit {0}) × Dict HtlcContract
cancel i = at_key not_found i cancel_on

unfoldable pub get_contract : ℕ → Dict HtlcContract → Option HtlcContract
get_contract i m = lookup i m

abbrev is_pending : HtlcStatus → Bool
is_pending pending = true
is_pending _ = false

unfoldable pub list_pending : Dict HtlcContract → List HtlcContract
list_pending m = select (λ c. is_pending c.status) (values m)
