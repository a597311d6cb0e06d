-- ===== src/Dict.antt =====
-- JavaScript's Map, in insertion order. A key is an identifier that the program only compares;
-- it is a number here, and 0 stands for the empty string, the one falsy text.
use mathlib.Core.Path.{subst₂}
use abundance_protocol.Prelude.{
  arith, inl, inr, Bool-cases, ℕ, ◌==◌, Bool, true, false, if◌then◌else◌, ◌≢◌, ◌≡◌, refl, Option,
  none, some, List, [], ◌∷◌,
}

module _ {ℓ} where
  abbrev pub Dict : (V : Type ℓ) → Type ℓ
  Dict V = List (ℕ × V)

module _ {ℓ} {V : Type ℓ} where
  -- m.get(k); `none` is undefined
  abbrev pub lookup : (key : ℕ) (m : Dict V) → Option V
  lookup key [] = none
  lookup key ((j, entry) ∷ m) = if j == key then some entry else lookup key m

  -- m.has(k)
  abbrev pub has : ℕ → Dict V → Bool
  has k m = elim (lookup k m) [ some _ ↦ true | none ↦ false ]

  -- m.set(k, v): a key that is there keeps its place
  abbrev pub insert : (key : ℕ) (entry : V) (m : Dict V) → Dict V
  insert key entry [] = (key, entry) ∷ []
  insert key entry ((j, old) ∷ m) =
      if j == key then (j, entry) ∷ m else (j, old) ∷ insert key entry m

  -- m.delete(k): a key stands once at most, and every entry of it is dropped
  abbrev pub erase : (key : ℕ) (m : Dict V) → Dict V
  erase key [] = []
  erase key ((j, entry) ∷ m) =
      let rest = erase key m in if j == key then rest else (j, entry) ∷ rest

  -- Array.from(m.values())
  abbrev pub values : Dict V → List V
  values [] = []
  values ((_, v) ∷ m) = v ∷ values m

  pub lookup-insert :
      (j k : ℕ) (v : V) (m : Dict V)
      → lookup j (insert k v m) ≡ (if k == j then some v else lookup j m)
  lookup-insert j k v [] = refl
  lookup-insert j k v ((i, w) ∷ m) = ground (arith, lookup-insert j k v m)

  pub lookup-insert_self : (k : ℕ) (v : V) (m : Dict V) → lookup k (insert k v m) ≡ some v
  lookup-insert_self k v m = ground (arith, lookup-insert k k v m)

  pub lookup-insert_ne :
      (j k : ℕ) (v : V) (m : Dict V) → k ≢ j → lookup j (insert k v m) ≡ lookup j m
  lookup-insert_ne j k v m h = ground (arith, lookup-insert j k v m)

  pub lookup-erase :
      (j k : ℕ) (m : Dict V) → lookup j (erase k m) ≡ (if k == j then none else lookup j m)
  lookup-erase j k [] = ground arith
  lookup-erase j k ((i, w) ∷ m) = ground (arith, lookup-erase j k m)

  pub insert-insert : (k : ℕ) (v w : V) (m : Dict V) → insert k w (insert k v m) ≡ insert k w m
  insert-insert k v w [] = ground arith
  insert-insert k v w ((i, x) ∷ m) = ground (arith, insert-insert k v w m)

  -- A predicate on the entries, by lookup.
  abbrev pub Every {κ} : (ℕ → V → Type κ) → Dict V → Type (ℓ ⊔ κ)
  Every P m = (k : ℕ) (v : V) → lookup k m ≡ some v → P k v

  pub Every-insert :
      {P : ℕ → V → Type 0} (k : ℕ) (v : V) (m : Dict V) → Every P m → P k v → Every P (insert k v m)
  Every-insert {P} k v m h p j w e = elim (Bool-cases (k == j)) [
    | inl same ↦
        let e' : v ≡ w = ground (arith, lookup-insert j k v m) in
        let k' : k ≡ j = ground arith in subst₂ P k' e' p
    | inr other ↦ h j w (ground (arith, lookup-insert j k v m))
  ]
