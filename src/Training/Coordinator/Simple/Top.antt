-- ===== src/Training/Coordinator/Simple/Top.antt =====
-- What the compression of a gradient keeps.
use abundance_protocol.Prelude.{
  ℕ, suc, ◌+◌, ◌≡◌, ◌⊎◌, refl, true, false, some, List, [], ◌∷◌, length, get_elem?, take, arith,
  inl, inr,
}
use abundance_protocol.Sorting.{
  IsOf, IsSorted, of_sort_by, sort_by_of, sort_by-IsSorted, take-IsSorted, of_take,
}
use abundance_protocol.Governance.Proposals.{sort_by}
use abundance_protocol.Reputation.{abs}
use abundance_protocol.Training.Coordinator.{Floats}
use abundance_protocol.Training.Coordinator.Compression.{portion}
use abundance_protocol.Training.Coordinator.Simple.{
  Entry, indexed, by_index, by_magnitude, values_of, indices_of, top_entries, compress_gradients,
}

module _ {R : Type 0} where
  of_indexed :
      (n : ℕ) (vs : List R) (x : Entry R)
      → IsOf x (indexed n vs)
      → (k : ℕ) × (x.i ≡ n + k) × (get_elem? vs k ≡ some x.v)
  unfolding indexed
  of_indexed n [] x m = absurd m
  of_indexed n (v ∷ vs) x (inl e) = (0, ground (arith, e), ground (arith, e))
  of_indexed n (v ∷ vs) x (inr m) =
      let (k, e, f) = of_indexed (suc n) vs x m in (suc k, omega (arith, e), f)

module _ {R : Type 0} (fl : Floats R)
    (asymmetric : (a b : R) → fl.num.less a b ≡ true → fl.num.less b a ≡ false)
    (transitive : (a b c : R)
      → fl.num.less a b ≡ false
      → fl.num.less b c ≡ false
      → fl.num.less a c ≡ false) where
  -- Compression keeps the largest entries, where `less` orders numbers: an entry of the gradient that is not
  -- kept is not larger in magnitude than one that is, every entry that is kept is the gradient's at its
  -- index, and the entries that are kept are in the order of their indices.
  pub compress_gradients_top :
      (gradient : List R) (ratio : R) (x y : Entry R)
      → IsOf x (top_entries fl gradient ratio)
      → IsOf y (indexed 0 gradient)
      → (IsOf y (top_entries fl gradient ratio)
          ⊎ (fl.num.less (abs fl.num x.v) (abs fl.num y.v) ≡ false))
        × (get_elem? gradient x.i ≡ some x.v)
        × IsSorted by_index (top_entries fl gradient ratio)
        × ((compress_gradients fl gradient ratio).values
            ≡ values_of (top_entries fl gradient ratio))
        × ((compress_gradients fl gradient ratio).indices
            ≡ indices_of (top_entries fl gradient ratio))
  unfolding top_entries compress_gradients
  compress_gradients_top gradient ratio x y m n =
      let k = portion fl (length gradient) ratio in
      let all = indexed 0 gradient in
      let ordered = sort_by (by_magnitude fl) all in
      let x' = of_sort_by by_index x (take k ordered) m in
      let sorted =
        sort_by-IsSorted (by_magnitude fl) (λ a b e. asymmetric (abs fl.num b.v) (abs fl.num a.v) e)
          (λ a b c e f. transitive (abs fl.num c.v) (abs fl.num b.v) (abs fl.num a.v) f e) all in
      let n' = sort_by_of (by_magnitude fl) y all n in
      let (i, at_i, value) =
        of_indexed 0 gradient x
          (of_sort_by (by_magnitude fl) x all (of_take (by_magnitude fl) k ordered x x')) in
      let same : x.i ≡ i = omega (arith, at_i) in
      (
        elim (take-IsSorted (by_magnitude fl) k ordered x y sorted x' n') [
          | inl kept ↦ inl (sort_by_of by_index y (take k ordered) kept)
          | inr smaller ↦ inr smaller
        ],
        rw same value,
        sort_by-IsSorted by_index (λ a b e. ground (arith, e)) (λ a b c e f. ground (arith, e, f))
            (take k ordered),
        refl,
        refl,
      )
