-- ===== src/Mesh/Routing/Best.antt =====
-- Which expert a task is routed to.
use mathlib.Core.Path.{subst}
use abundance_protocol.Prelude.{
  ℕ, ◌≡◌, ◌⊎◌, Bool, true, false, some, List, [], ◌∷◌, arith, inl, inr, Bool-cases, refl, All,
  includes, ◌==◌,
}
use abundance_protocol.Dict.{values}
use abundance_protocol.Reputation.{Fractions}
use abundance_protocol.Governance.Proposals.{sort_by, insert_by}
use abundance_protocol.Sorting.{IsOf, of_insert_by, of_sort_by, sort_by_of}
use abundance_protocol.Mesh.Routing.{
  Expert, Router, RoutingDecision, all_of, suits, matching, find_experts, calculate_score,
  decision_of, route,
}

all_of-All :
    (rs capabilities : List ℕ)
    → all_of rs capabilities ≡ true
    → All (λ r. includes r capabilities ≡ true) rs
all_of-All [] capabilities h = tt
all_of-All (r ∷ rs) capabilities h = (ground arith, all_of-All rs capabilities (ground arith))

All-all_of :
    (rs capabilities : List ℕ)
    → All (λ r. includes r capabilities ≡ true) rs
    → all_of rs capabilities ≡ true
All-all_of [] capabilities h = refl
All-all_of (r ∷ rs) capabilities h = ground (arith, h.0, All-all_of rs capabilities h.1)

module _ {R : Type 0} (type : ℕ) (requirements : List ℕ) where
  -- The expert is of the type, or has it among its capabilities, and has every requirement among them.
  abbrev pub Meets : Expert R → Type 0
  Meets e =
      ((e.type ≡ type) ⊎ (includes type e.capabilities ≡ true))
      × All (λ r. includes r e.capabilities ≡ true) requirements

  suits-Meets : (e : Expert R) → suits type requirements e ≡ true → Meets e
  suits-Meets e h = (
    elim (Bool-cases (e.type == type)) [
      | inl same ↦ inl (ground arith)
      | inr other ↦ inr (ground arith)
    ],
    all_of-All requirements e.capabilities (ground arith),
  )

  Meets-suits : (e : Expert R) → Meets e → suits type requirements e ≡ true
  Meets-suits e h =
      let every = All-all_of requirements e.capabilities h.1 in
      elim h.0 [ inl same ↦ ground arith | inr has ↦ ground arith ]

  of_matching :
      (z : Expert R) (xs : List (Expert R))
      → IsOf z (matching type requirements xs)
      → (suits type requirements z ≡ true) × IsOf z xs
  unfolding matching
  of_matching z [] m = absurd m
  of_matching z (x ∷ xs) m = elim (Bool-cases (suits type requirements x)) [
    | inl e ↦
        let m' : (x ≡ z) ⊎ IsOf z (matching type requirements xs) = rw e at m in
        elim m' [
          | inl same ↦ (rw (← same) e, inl same)
          | inr there ↦ let (s, old) = of_matching z xs there in (s, inr old)
        ]
    | inr e ↦ let (s, old) = of_matching z xs (rw e at m) in (s, inr old)
  ]

  matching_of :
      (z : Expert R) (xs : List (Expert R))
      → IsOf z xs
      → suits type requirements z ≡ true
      → IsOf z (matching type requirements xs)
  unfolding matching
  matching_of z [] m s = absurd m
  matching_of z (x ∷ xs) (inl same) s =
      let s' : suits type requirements x ≡ true = rw same s in rw s' (inl same)
  matching_of z (x ∷ xs) (inr m) s = elim (Bool-cases (suits type requirements x)) [
    | inl e ↦ rw e (inr (matching_of z xs m s))
    | inr e ↦ rw e (matching_of z xs m s)
  ]

module _ {R : Type 0} (num : Fractions R)
    (asymmetric : (a b : R) → num.less a b ≡ true → num.less b a ≡ false) (IsReal : R → Type 0)
    (never_less : (a b c : R)
      → IsReal b
      → num.less a b ≡ false
      → num.less b c ≡ false
      → num.less a c ≡ false) where
  -- No member of the list has a higher score than the expert.
  IsTop : Expert R → List (Expert R) → Type 0
  IsTop e xs =
      (x : Expert R) → IsOf x xs → num.less (calculate_score num e) (calculate_score num x) ≡ false

  Heads : List (Expert R) → Type 0
  unfolding IsTop
  Heads [] = Unit
  Heads (e ∷ es) = IsTop e (e ∷ es)

  irreflexive : (a : R) → num.less a a ≡ false
  irreflexive a = elim (Bool-cases (num.less a a)) [ inl e ↦ asymmetric a a e | inr e ↦ e ]

  higher : Expert R → Expert R → Bool
  higher a b = num.less (calculate_score num b) (calculate_score num a)

  -- The scores of all the experts are numbers other than NaN.
  abbrev pub AreReal : List (Expert R) → Type 0
  AreReal es = (e : Expert R) → IsOf e es → IsReal (calculate_score num e)

  insert_by-Heads :
      (x : Expert R) (es : List (Expert R)) → AreReal es → Heads es → Heads (insert_by higher x es)
  unfolding insert_by Heads IsTop higher
  insert_by-Heads x [] real h =
      λ z m. elim m [ inl e ↦ rw (← e) (irreflexive (calculate_score num x)) | inr m' ↦ absurd m' ]
  insert_by-Heads x (y ∷ ys) real h = elim (Bool-cases (higher y x)) [
    | inl above ↦ rw above (λ z m. elim m [
      | inl e ↦ rw (← e) (irreflexive (calculate_score num y))
      | inr m' ↦ elim (of_insert_by higher x z ys m') [
        | inl new ↦ rw (← new) (asymmetric (calculate_score num x) (calculate_score num y) above)
        | inr old ↦ h z (inr old)
      ]
    ])
    | inr below ↦ rw below (λ z m. elim m [
      | inl e ↦ rw (← e) (irreflexive (calculate_score num x))
      | inr old ↦
          never_less (calculate_score num x) (calculate_score num y) (calculate_score num z)
            (real y (inl refl)) below (h z old)
    ])
  ]

  sort_by-Heads : (es : List (Expert R)) → AreReal es → Heads (sort_by higher es)
  unfolding sort_by Heads
  sort_by-Heads [] real = tt
  sort_by-Heads (e ∷ es) real =
      insert_by-Heads e (sort_by higher es) (λ x m. real x (inr (of_sort_by higher x es m)))
        (sort_by-Heads es (λ x m. real x (inr m)))

  decided :
      (es : List (Expert R)) (d : RoutingDecision R)
      → Heads es
      → decision_of num es ≡ some d
      → IsOf d.expert es × IsTop d.expert es
  unfolding Heads
  decided [] d h e = cc
  decided (x ∷ es) d h e =
      let same : x ≡ d.expert = ground arith in (inl same, subst (λ y. IsTop y (x ∷ es)) same h)

  -- A task is routed to an expert that is known, is of its type or has the type among its capabilities,
  -- and has every requirement among them; no other known
  -- expert that does has a higher score. It is assumed that no known expert's score is NaN, and that `less`
  -- orders the other numbers.
  pub route_best :
      (type : ℕ) (requirements : List ℕ) (s : Router R) (d : RoutingDecision R)
      → AreReal (values s.experts)
      → route num type requirements s ≡ some d
      → IsOf d.expert (values s.experts)
        × Meets type requirements d.expert
        × ((e : Expert R)
            → IsOf e (values s.experts)
            → Meets type requirements e
            → num.less (calculate_score num d.expert) (calculate_score num e) ≡ false)
  unfolding route find_experts IsTop higher
  route_best type requirements s d real e =
      let all = matching type requirements (values s.experts) in
      let (member, top) =
        decided (sort_by higher all) d
          (sort_by-Heads all
            (λ x m. real x (of_matching type requirements x (values s.experts) m).1))
          e in
      let (fits, known) =
        of_matching type requirements d.expert (values s.experts)
          (of_sort_by higher d.expert all member) in
      (
        known,
        suits-Meets type requirements d.expert fits,
        λ x there meets. top x (
            sort_by_of higher x all (
              matching_of type requirements x (values s.experts) there
                (Meets-suits type requirements x meets))),
      )
