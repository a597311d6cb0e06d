-- ===== src/Training/Coordinator/Compression.antt =====
-- The compression of an aggregate (src/training/coordinator.ts: _internalCompressGradients). `pick i` is
-- the number `Math.floor(Math.random() * (i + 1))` of the shuffle's step i.
pub mod Sound
use abundance_protocol.Prelude.{
  ℕ, zero, suc, ◌+◌, ◌-◌, Bool, Option, none, some, List, [], ◌∷◌, ltb, if◌then◌else◌, length,
  get_elem?, set, take, replicate,
}
use abundance_protocol.Reputation.{abs}
use abundance_protocol.Governance.Proposals.{sort_by}
use abundance_protocol.Training.Coordinator.{Floats, CompressionLevel, uncompressed, topk, random}
use abundance_protocol.Training.Coordinator.Norms.{zero_of, entry_at}

-- Array.from({ length: n }, (_, i) => i), from i on
unfoldable pub indices_from : ℕ → ℕ → List ℕ
indices_from i zero = []
indices_from i (suc n) = i ∷ indices_from (i + 1) n

-- [xs[i], xs[j]] = [xs[j], xs[i]], for two indices in range
unfoldable pub swap : ℕ → ℕ → List ℕ → List ℕ
swap i j xs =
    let xi = elim (get_elem? xs i) as (λ _. ℕ) [ none ↦ 0 | some x ↦ x ] in
    let xj = elim (get_elem? xs j) as (λ _. ℕ) [ none ↦ 0 | some x ↦ x ] in set (set xs i xj) j xi

-- the loop from i down to 1
unfoldable pub shuffle : (ℕ → ℕ) → ℕ → List ℕ → List ℕ
shuffle pick zero xs = xs
shuffle pick (suc i) xs = shuffle pick i (swap (suc i) (pick (suc i)) xs)

module _ {R : Type 0} (fl : Floats R) where
  -- Math.max(1, Math.floor(n * share))
  unfoldable pub portion : ℕ → R → ℕ
  portion n share =
      let k = fl.whole (fl.num.floor (fl.num.mul (fl.num.lit n 1) share)) in
      if ltb 1 k then k else 1

  -- the loop that copies the entries of the chosen indices
  unfoldable pub copy_loop : List R → List ℕ → List R → List R
  copy_loop gradients [] compressed = compressed
  copy_loop gradients (i ∷ is) compressed =
      copy_loop gradients is (set compressed i (entry_at fl gradients i))

  abbrev pub larger : List R → ℕ → ℕ → Bool
  larger gradients a b =
      fl.num.less (abs fl.num (entry_at fl gradients b)) (abs fl.num (entry_at fl gradients a))

  unfoldable pub chosen : CompressionLevel → (ℕ → ℕ) → List R → List ℕ
  chosen random pick gradients =
      let n = length gradients in
      take (portion n (fl.num.lit 10 100)) (shuffle pick (n - 1) (indices_from 0 n))
  chosen _ pick gradients =
      let n = length gradients in
      take (portion n (fl.num.lit 1 100)) (sort_by (larger gradients) (indices_from 0 n))

  unfoldable pub internal_compress_gradients : CompressionLevel → (ℕ → ℕ) → List R → List R
  internal_compress_gradients method pick gradients =
      copy_loop gradients (chosen method pick gradients) (replicate (length gradients) (zero_of fl))
