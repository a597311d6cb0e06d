-- ===== src/Security/Lightning/Fees/Median.antt =====
-- What an oracle can do to the estimate.
use abundance_protocol.Prelude.{ℕ, ◌≤◌, ◌≡◌, ◌<◌, some, [], ◌∷◌, arith}
use abundance_protocol.Result.{ok}
use abundance_protocol.Security.Lightning.Fees.{
  estimates, place, sort, median, get_secure_fee_estimate,
}

-- One oracle alone does not make the fee: the estimate of three answers, in whatever order they come, is at
-- least the lower and at most the higher of the two that the other oracles gave.
pub estimate_three :
    (a b x lo hi : ℕ)
    → 0 < a
    → 0 < b
    → 0 < x
    → lo ≤ a
    → lo ≤ b
    → a ≤ hi
    → b ≤ hi
    → (fee : ℕ) × (get_secure_fee_estimate (some a ∷ some b ∷ some x ∷ []) ≡ ok fee)
      × (get_secure_fee_estimate (some a ∷ some x ∷ some b ∷ []) ≡ ok fee)
      × (get_secure_fee_estimate (some x ∷ some a ∷ some b ∷ []) ≡ ok fee)
      × (lo ≤ fee)
      × (fee ≤ hi)
unfolding get_secure_fee_estimate estimates median sort place
estimate_three a b x lo hi pa pb px la lb ha hb = (
  median (sort (a ∷ b ∷ x ∷ [])),
  ground arith,
  ground arith,
  ground arith,
  ground arith,
  ground arith,
)
