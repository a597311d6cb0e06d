-- ===== src/Sorting.antt =====
-- What sorting keeps and how it orders (the `sort` of arrays, which several components call).
use mathlib.Core.Path.{subst}
use abundance_protocol.Prelude.{
  ℕ, zero, suc, ◌≡◌, ◌⊎◌, refl, Bool, true, false, List, [], ◌∷◌, length, take, All, arith, inl,
  inr, Bool-cases,
}
use abundance_protocol.Governance.Proposals.{sort_by, insert_by}

-- A member of a list.
abbrev pub IsOf : {A : Type 0} → A → List A → Type 0
IsOf x [] = ⊥
IsOf x (y ∷ ys) = (y ≡ x) ⊎ IsOf x ys

module _ {A : Type 0} (before : A → A → Bool) where
  pub of_insert_by : (x z : A) (ys : List A) → IsOf z (insert_by before x ys) → (x ≡ z) ⊎ IsOf z ys
  unfolding insert_by
  of_insert_by x z [] m = m
  of_insert_by x z (y ∷ ys) m = elim (Bool-cases (before y x)) [
    | inl e ↦
        let m' : (y ≡ z) ⊎ IsOf z (insert_by before x ys) = rw e at m in
        elim m' [
          | inl here ↦ inr (inl here)
          | inr there ↦ elim (of_insert_by x z ys there) [
            | inl new ↦ inl new
            | inr old ↦ inr (inr old)
          ]
        ]
    | inr e ↦ rw e at m
  ]

  pub insert_by_of : (x z : A) (ys : List A) → (x ≡ z) ⊎ IsOf z ys → IsOf z (insert_by before x ys)
  unfolding insert_by
  insert_by_of x z [] m = m
  insert_by_of x z (y ∷ ys) (inl new) = elim (Bool-cases (before y x)) [
    | inl e ↦ rw e (inr (insert_by_of x z ys (inl new)))
    | inr e ↦ rw e (inl new)
  ]
  insert_by_of x z (y ∷ ys) (inr old) = elim (Bool-cases (before y x)) [
    | inl e ↦
        rw e (elim old [ inl here ↦ inl here | inr there ↦ inr (insert_by_of x z ys (inr there)) ])
    | inr e ↦ rw e (inr old)
  ]

  pub of_sort_by : (z : A) (xs : List A) → IsOf z (sort_by before xs) → IsOf z xs
  unfolding sort_by
  of_sort_by z [] m = m
  of_sort_by z (x ∷ xs) m = elim (of_insert_by x z (sort_by before xs) m) [
    | inl e ↦ inl e
    | inr m' ↦ inr (of_sort_by z xs m')
  ]

  pub sort_by_of : (z : A) (xs : List A) → IsOf z xs → IsOf z (sort_by before xs)
  unfolding sort_by
  sort_by_of z [] m = m
  sort_by_of z (x ∷ xs) (inl e) = insert_by_of x z (sort_by before xs) (inl e)
  sort_by_of z (x ∷ xs) (inr m) = insert_by_of x z (sort_by before xs) (inr (sort_by_of z xs m))

  -- No later member comes before an earlier one.
  abbrev pub IsSorted : List A → Type 0
  IsSorted [] = Unit
  IsSorted (x ∷ xs) = All (λ y. before y x ≡ false) xs × IsSorted xs

  pub All-insert_by :
      (P : A → Type 0) (x : A) (ys : List A) → P x → All P ys → All P (insert_by before x ys)
  unfolding insert_by
  All-insert_by P x [] p h = (p, tt)
  All-insert_by P x (y ∷ ys) p h = elim (Bool-cases (before y x)) [
    | inl e ↦ rw e (h.0, All-insert_by P x ys p h.1)
    | inr e ↦ rw e (p, h)
  ]

  pub All-sort_by : (P : A → Type 0) (xs : List A) → All P xs → All P (sort_by before xs)
  unfolding sort_by
  All-sort_by P [] h = tt
  All-sort_by P (x ∷ xs) h = All-insert_by P x (sort_by before xs) h.0 (All-sort_by P xs h.1)

  module _ (asymmetric : (a b : A) → before a b ≡ true → before b a ≡ false)
      (transitive : (a b c : A)
        → before a b ≡ false
        → before b c ≡ false
        → before a c ≡ false) where
    All-after :
        (x y : A) (ys : List A)
        → before y x ≡ false
        → All (λ z. before z y ≡ false) ys
        → All (λ z. before z x ≡ false) ys
    All-after x y [] e h = tt
    All-after x y (z ∷ zs) e h = (transitive z y x h.0 e, All-after x y zs e h.1)

    insert_by-IsSorted : (x : A) (ys : List A) → IsSorted ys → IsSorted (insert_by before x ys)
    unfolding insert_by
    insert_by-IsSorted x [] h = (tt, tt)
    insert_by-IsSorted x (y ∷ ys) h = elim (Bool-cases (before y x)) [
      | inl e ↦ rw e (
        All-insert_by (λ z. before z y ≡ false) x ys (asymmetric y x e) h.0,
        insert_by-IsSorted x ys h.1,
      )
      | inr e ↦ rw e ((e, All-after x y ys e h.0), h)
    ]

    pub sort_by-IsSorted : (xs : List A) → IsSorted (sort_by before xs)
    unfolding sort_by
    sort_by-IsSorted [] = tt
    sort_by-IsSorted (x ∷ xs) = insert_by-IsSorted x (sort_by before xs) (sort_by-IsSorted xs)

  All-of : (P : A → Type 0) (x : A) (xs : List A) → All P xs → IsOf x xs → P x
  All-of P x [] h m = absurd m
  All-of P x (y ∷ ys) h (inl e) = subst P e h.0
  All-of P x (y ∷ ys) h (inr m) = All-of P x ys h.1 m

  -- The first members of a sorted list: what is left out comes before none of them.
  pub take-IsSorted :
      (k : ℕ) (xs : List A) (x y : A)
      → IsSorted xs
      → IsOf x (take k xs)
      → IsOf y xs
      → IsOf y (take k xs) ⊎ (before y x ≡ false)
  take-IsSorted zero xs x y h m n = absurd m
  take-IsSorted (suc k) [] x y h m n = absurd m
  take-IsSorted (suc k) (z ∷ zs) x y h m (inl e) = inl (inl e)
  take-IsSorted (suc k) (z ∷ zs) x y h (inl e) (inr n) =
      inr (subst (λ a. before y a ≡ false) e (All-of (λ a. before a z ≡ false) y zs h.0 n))
  take-IsSorted (suc k) (z ∷ zs) x y h (inr m) (inr n) = elim (take-IsSorted k zs x y h.1 m n) [
    | inl t ↦ inl (inr t)
    | inr e ↦ inr e
  ]

  pub of_take : (k : ℕ) (xs : List A) (x : A) → IsOf x (take k xs) → IsOf x xs
  of_take zero xs x m = absurd m
  of_take (suc k) [] x m = absurd m
  of_take (suc k) (y ∷ ys) x (inl e) = inl e
  of_take (suc k) (y ∷ ys) x (inr m) = inr (of_take k ys x m)

  insert_by-length : (x : A) (ys : List A) → length (insert_by before x ys) ≡ suc (length ys)
  unfolding insert_by
  insert_by-length x [] = refl
  insert_by-length x (y ∷ ys) = ground (arith, insert_by-length x ys)

  pub length-sort_by : (xs : List A) → length (sort_by before xs) ≡ length xs
  unfolding sort_by
  length-sort_by [] = refl
  length-sort_by (x ∷ xs) = omega (arith, insert_by-length x (sort_by before xs), length-sort_by xs)
