-- ===== src/Training/Coordinator/Compression/Sound.antt =====
-- What a compression keeps.
use abundance_protocol.Prelude.{
  ℕ, zero, suc, ◌<◌, ◌≡◌, ◌⊎◌, refl, some, List, [], ◌∷◌, length, get_elem?, set, replicate, arith,
  inl, inr,
}
use abundance_protocol.Training.Coordinator.{Floats, CompressionLevel}
use abundance_protocol.Training.Coordinator.Norms.{zero_of, entry_at}
use abundance_protocol.Training.Coordinator.Compression.{
  copy_loop, chosen, internal_compress_gradients,
}

module _ {A : Type 0} where
  length-set : (xs : List A) (i : ℕ) (v : A) → length (set xs i v) ≡ length xs
  length-set [] i v = refl
  length-set (x ∷ xs) zero v = refl
  length-set (x ∷ xs) (suc i) v = omega (arith, length-set xs i v)

  get_elem?-set :
      (xs : List A) (i j : ℕ) (v : A)
      → (get_elem? (set xs i v) j ≡ get_elem? xs j)
        ⊎ ((i ≡ j) × (get_elem? (set xs i v) j ≡ some v) × (i < length xs))
  get_elem?-set [] i j v = inl refl
  get_elem?-set (x ∷ xs) zero zero v = inr (refl, refl, omega arith)
  get_elem?-set (x ∷ xs) zero (suc j) v = inl refl
  get_elem?-set (x ∷ xs) (suc i) zero v = inl refl
  get_elem?-set (x ∷ xs) (suc i) (suc j) v = elim (get_elem?-set xs i j v) [
    | inl e ↦ inl e
    | inr (e, e', h) ↦ inr (omega arith, e', omega arith)
  ]

  get_elem?-replicate : (n i : ℕ) (a : A) → i < n → get_elem? (replicate n a) i ≡ some a
  get_elem?-replicate zero i a h = absurd (omega arith)
  get_elem?-replicate (suc n) zero a h = refl
  get_elem?-replicate (suc n) (suc i) a h = get_elem?-replicate n i a (omega arith)

  length-replicate : (n : ℕ) (a : A) → length (replicate n a) ≡ n
  length-replicate zero a = refl
  length-replicate (suc n) a = omega (arith, length-replicate n a)

  get_elem?-some : (xs : List A) (i : ℕ) → i < length xs → (x : A) × (get_elem? xs i ≡ some x)
  get_elem?-some [] i h = absurd (omega arith)
  get_elem?-some (x ∷ xs) zero h = (x, refl)
  get_elem?-some (x ∷ xs) (suc i) h = get_elem?-some xs i (omega arith)

module _ {R : Type 0} (fl : Floats R) (gradients : List R) where
  -- An entry that is 0 or the gradient's.
  abbrev pub IsKept : List R → ℕ → Type 0
  IsKept compressed j =
      (get_elem? compressed j ≡ get_elem? gradients j)
      ⊎ (get_elem? compressed j ≡ some (zero_of fl))

  entry_at-some :
      (j : ℕ) → j < length gradients → some (entry_at fl gradients j) ≡ get_elem? gradients j
  entry_at-some j h = let (x, e) = get_elem?-some gradients j h in ground (arith, e)

  length-copy_loop :
      (is : List ℕ) (compressed : List R)
      → length (copy_loop fl gradients is compressed) ≡ length compressed
  unfolding copy_loop
  length-copy_loop [] compressed = refl
  length-copy_loop (i ∷ is) compressed =
      let next = set compressed i (entry_at fl gradients i) in
      omega (arith, length-copy_loop is next, length-set compressed i (entry_at fl gradients i))

  copy_loop-IsKept :
      (is : List ℕ) (compressed : List R)
      → length compressed ≡ length gradients
      → ((j : ℕ) → j < length gradients → IsKept compressed j)
      → (j : ℕ) → j < length gradients
      → IsKept (copy_loop fl gradients is compressed) j
  unfolding copy_loop
  copy_loop-IsKept [] compressed same h = h
  copy_loop-IsKept (i ∷ is) compressed same h =
      let v = entry_at fl gradients i in
      copy_loop-IsKept is (set compressed i v) (omega (arith, length-set compressed i v))
        (λ j within. elim (get_elem?-set compressed i j v) [
          | inl e ↦ elim (h j within) [
            | inl k ↦ inl (ground (arith, e, k))
            | inr k ↦ inr (ground (arith, e, k))
          ]
          | inr (e, e', there) ↦ inl (ground (arith, e, e', entry_at-some i (omega arith)))
        ])

  -- A compression, by either method and however the indices are drawn, is as long as the gradient, and each
  -- of its entries is the gradient's at the same place, or 0.
  pub internal_compress_gradients_sound :
      (method : CompressionLevel) (pick : ℕ → ℕ) (j : ℕ)
      → j < length gradients
      → (length (internal_compress_gradients fl method pick gradients) ≡ length gradients)
        × IsKept (internal_compress_gradients fl method pick gradients) j
  unfolding internal_compress_gradients
  internal_compress_gradients_sound method pick j within =
      let n = length gradients in
      let zeros = replicate n (zero_of fl) in
      let is = chosen fl method pick gradients in
      let fit = length-replicate n (zero_of fl) in
      (
        omega (arith, length-copy_loop is zeros, fit),
        copy_loop-IsKept is zeros fit (λ i h. inr (get_elem?-replicate n i (zero_of fl) h)) j
            within,
      )
