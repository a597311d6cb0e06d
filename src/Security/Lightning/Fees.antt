-- ===== src/Security/Lightning/Fees.antt =====
-- Fee rates (lightningHardening.ts, gap 3). An oracle's answer is whole, as sat/vbyte; `none` is one
-- that failed or was not positive. The cap of 0.1% is a product of fractions and stays out.
pub mod Median
use abundance_protocol.Prelude.{
  ℕ, ◌+◌, ◌-◌, ◌*◌, ◌/◌, ◌%◌, Bool, Option, none, some, List, [], ◌∷◌, leb, ltb, ◌==◌,
  if◌then◌else◌, length, get_elem?,
}
use abundance_protocol.Result.{Result, ok, err, throw_if, ◌>>=◌, ◌>>◌}

pub data FeeError : Type 0 where
  insufficient_responses : FeeError

-- The answers that are kept, in the order in which they came.
unfoldable pub estimates : List (Option ℕ) → List ℕ
estimates [] = []
estimates (none ∷ xs) = estimates xs
estimates (some fee ∷ xs) = let rest = estimates xs in if ltb 0 fee then fee ∷ rest else rest

-- estimates.sort((a, b) => a - b)
unfoldable pub place : ℕ → List ℕ → List ℕ
place a [] = a ∷ []
place a (b ∷ bs) = let rest = place a bs in if leb a b then a ∷ b ∷ bs else b ∷ rest

unfoldable pub sort : List ℕ → List ℕ
sort [] = []
sort (a ∷ xs) = place a (sort xs)

abbrev pub at : List ℕ → ℕ → ℕ
at xs i = elim (get_elem? xs i) [ some a ↦ a | none ↦ 0 ]

-- The median of a sorted list, rounded down.
unfoldable pub median : List ℕ → ℕ
median xs =
    if length xs % 2 == 0
    then (at xs (length xs / 2 - 1) + at xs (length xs / 2)) / 2
    else at xs (length xs / 2)

unfoldable pub get_secure_fee_estimate : List (Option ℕ) → Result FeeError ℕ
get_secure_fee_estimate answers = do
  throw_if (ltb (length (estimates answers)) 2) insufficient_responses
  ok (median (sort (estimates answers)))

unfoldable pub detect_fee_manipulation : ℕ → ℕ → Bool
detect_fee_manipulation proposed_fee median_fee = ltb (median_fee * 5) proposed_fee
