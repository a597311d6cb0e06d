-- ===== src/Tests/Lightning.antt =====
-- A wallet with two invoices and a treasury of three signers.
use abundance_protocol.Registry.{at_key}
use abundance_protocol.Prelude.{
  ℕ, ◌+◌, ◌≡◌, ◌≤◌, refl, some, List, [], ◌∷◌, ◌++◌, arith, ltb, length, select, replicate,
}
use abundance_protocol.Dict.{Dict, lookup}
use abundance_protocol.Result.{err}
use abundance_protocol.Security.Lightning.{
  Text, LightningHardening, PendingTransaction, new_hardening,
}
use abundance_protocol.Security.Lightning.Invoices.SingleUse.{
  InvoiceCall, generates, marks, prunes, payments, payments_once,
}
use abundance_protocol.Security.Lightning.Treasury.{
  verify_signature, sign_on, add_signature, execute_begin, execute_end, not_found, propose_spend,
}
use abundance_protocol.Security.Lightning.Treasury.Signed.{
  TreasuryCall, proposes, signs, IsSigned, run, execute-IsSigned,
}
use abundance_protocol.Security.Window.{is_recent}
use abundance_protocol.Security.Lightning.Htlcs.{detect_htlc_flood}
use abundance_protocol.Security.Lightning.Htlcs.Flood.{detect_all, detect_htlc_flood_exact}

abbrev fresh : LightningHardening
fresh = new_hardening []

abbrev sum_of : ℕ → ℕ → ℕ → ℕ → ℕ
sum_of a b c d = a + b + c + d

abbrev invoice_calls : List InvoiceCall
invoice_calls = marks 10 2 ∷ generates 5 1 1 3 ∷ marks 6 4 ∷ marks 6 5 ∷ prunes 9 ∷ marks 10 6 ∷ []

payments_once_example : payments sum_of 7 invoice_calls fresh ≤ 1
payments_once_example = payments_once sum_of 7 invoice_calls fresh (ground arith, tt)

-- 128 times the letter a
abbrev seal : Text
seal = replicate 128 97

abbrev unsigned_text : ℕ → ℕ → ℕ → ℕ
unsigned_text amount destination now = amount + destination + now

abbrev broadcast_id : PendingTransaction → ℕ → ℕ
broadcast_id tx now = tx.tx_id + now

abbrev three_sign : List TreasuryCall
three_sign =
    proposes 500 60 1 9 100 ∷ signs 9 1 seal ∷ signs 9 2 seal ∷ signs 9 1 seal ∷ signs 9 3 seal ∷ []

abbrev signed_spend : PendingTransaction
signed_spend = record {
  tx_id = 9;
  amount = 500;
  destination = 60;
  proposer = 1;
  signatures = (1, seal) ∷ (2, seal) ∷ (3, seal) ∷ [];
  unsigned_tx = unsigned_text 500 60 100;
  created_at = 100;
}

abbrev late_calls : List TreasuryCall
late_calls = signs 9 4 seal ∷ proposes 500 60 1 8 109 ∷ []

execute-IsSigned_example :
    (lookup 9 (run unsigned_text three_sign fresh).pending_transactions ≡ some signed_spend)
    × (3 ≤ length signed_spend.signatures)
    × IsSigned signed_spend
    × (execute_begin 9
          (run unsigned_text late_calls (execute_end 9 (run unsigned_text three_sign fresh)))
        ≡ err not_found)
unfolding execute_begin run add_signature at_key propose_spend sign_on verify_signature
execute-IsSigned_example =
    execute-IsSigned unsigned_text three_sign late_calls fresh 9 signed_spend (λ k v e. cc) refl
      (tt, ((λ e. omega (arith, e)), tt))

abbrev three_seals : Dict Text
three_seals = (4, seal) ∷ (2, seal) ∷ (3, seal) ∷ []

detect_htlc_flood_exact_example :
    (detect_htlc_flood 1 60000 90000 (detect_all 1 60000 (10 ∷ 50 ∷ 70000 ∷ []) fresh)).0
    ≡ ltb 100
        (length (select (is_recent 60000 90000) ([] ++ (10 ∷ 50 ∷ 70000 ∷ []) ++ (90000 ∷ []))))
detect_htlc_flood_exact_example =
    detect_htlc_flood_exact 1 60000 0 90000 (10 ∷ 50 ∷ 70000 ∷ []) [] fresh
      (omega arith, (omega arith, (omega arith, (omega arith, tt)))) refl
