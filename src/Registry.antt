-- ===== src/Registry.antt =====
-- The pattern that the services share: a method finds an object in a Map by its identifier, throws
-- if there is none, checks guards on it, changes its fields in place, and returns a value.
use abundance_protocol.Prelude.{
  arith, ◌==◌, Bool-cases, ℕ, ◌≡◌, ◌≢◌, refl, inl, inr, Option, none, some, Option-cases,
}
use abundance_protocol.Dict.{
  lookup-insert_self, Dict, lookup, insert, lookup-insert_ne, Every, Every-insert,
}
use abundance_protocol.Result.{Result, ok, err}

module _ {E A V : Type 0} where
  -- A throw leaves the object as it was: each guard stands before the first assignment.
  abbrev pub commit : ℕ → Dict V → Result E (A × V) → Result E A × Dict V
  commit k m (ok (a, v)) = (ok a, insert k v m)
  commit k m (err e) = (err e, m)

  unfoldable pub at_key : E → ℕ → (V → Result E (A × V)) → Dict V → Result E A × Dict V
  at_key missing k f m = elim (lookup k m) [ none ↦ (err missing, m) | some v ↦ commit k m (f v) ]

  commit-err :
      (k : ℕ) (m : Dict V) (r : Result E (A × V)) {x : E}
      → (commit k m r).0 ≡ err x
      → (commit k m r).1 ≡ m
  commit-err k m (ok _) h = cc
  commit-err k m (err _) h = refl

  commit-ok :
      (k : ℕ) (m : Dict V) (r : Result E (A × V)) {a : A}
      → (commit k m r).0 ≡ ok a
      → (w : V) × (r ≡ ok (a, w)) × ((commit k m r).1 ≡ insert k w m)
  commit-ok k m (ok (b, w)) h = (w, cc, refl)
  commit-ok k m (err _) h = cc

module _ {E A V : Type 0} (missing : E) (k : ℕ) (f : V → Result E (A × V)) (m : Dict V) where
  pub at_key_missing : lookup k m ≡ none → at_key missing k f m ≡ (err missing, m)
  unfolding at_key
  at_key_missing e = rw (e, at_key)

  pub at_key_found : {v : V} → lookup k m ≡ some v → at_key missing k f m ≡ commit k m (f v)
  unfolding at_key
  at_key_found e = rw (e, at_key)

  -- What a call that threw left behind: nothing.
  pub at_key-err : {x : E} → (at_key missing k f m).0 ≡ err x → (at_key missing k f m).1 ≡ m
  at_key-err h = elim (Option-cases (lookup k m)) [
    | inl e ↦ rw (at_key_missing e)
    | inr (v, e) ↦ rw (at_key_found e) (commit-err k m (f v) (rw (at_key_found e) at h))
  ]

  -- What a call that returned has done.
  pub at_key-ok :
      {a : A}
      → (at_key missing k f m).0 ≡ ok a
      → (v w : V) × (lookup k m ≡ some v)
        × (f v ≡ ok (a, w))
        × ((at_key missing k f m).1 ≡ insert k w m)
  at_key-ok {a} h = elim (Option-cases (lookup k m)) [
    | inl e ↦ let h' : err missing ≡ ok a = rw (at_key_missing e) at h in cc
    | inr (v, e) ↦
        let (w, r, s) = commit-ok k m (f v) (rw (at_key_found e) at h) in
        (v, w, e, r, rw (at_key_found e) s)
  ]

  -- No other entry of the map changes.
  pub at_key_others : (j : ℕ) → k ≢ j → lookup j (at_key missing k f m).1 ≡ lookup j m
  at_key_others j ne = elim (Option-cases (lookup k m)) [
    | inl e ↦ rw (at_key_missing e)
    | inr (v, e) ↦ rw (at_key_found e) (others (f v))
  ]
    where
      others : (r : Result E (A × V)) → lookup j (commit k m r).1 ≡ lookup j m
      others (ok (a, w)) = lookup-insert_ne j k w m ne
      others (err x) = refl

  -- A predicate that the method keeps on an object is kept on the whole map.
  pub at_key-Every :
      {P : ℕ → V → Type 0}
      → Every P m
      → ((v w : V) (a : A) → P k v → f v ≡ ok (a, w) → P k w)
      → Every P (at_key missing k f m).1
  at_key-Every {P} h keep = elim (Option-cases (lookup k m)) [
    | inl e ↦ rw (at_key_missing e) h
    | inr (v, e) ↦ rw (at_key_found e) (kept v e (f v) refl)
  ]
    where
      kept :
          (v : V)
          → lookup k m ≡ some v
          → (r : Result E (A × V)) → f v ≡ r
          → Every P (commit k m r).1
      kept v e (ok (a, w)) r = Every-insert k w m h (keep v w a (h k v e) r)
      kept v e (err x) r = h

-- A method that returns early where there is no object.
module _ {V : Type 0} where
  revise : ℕ → (V → V) → Dict V → Option V → Dict V
  revise k g m none = m
  revise k g m (some v) = insert k (g v) m

  unfoldable pub update_key : ℕ → (V → V) → Dict V → Dict V
  unfolding revise
  update_key k g m = revise k g m (lookup k m)

module _ {V : Type 0} (k : ℕ) (g : V → V) (m : Dict V) where
  pub update_key_missing : lookup k m ≡ none → update_key k g m ≡ m
  unfolding update_key
  update_key_missing e = rw e

  pub update_key_found : {v : V} → lookup k m ≡ some v → update_key k g m ≡ insert k (g v) m
  unfolding update_key
  update_key_found e = rw e

  pub update_key-Every :
      {P : ℕ → V → Type 0} → Every P m → ((v : V) → P k v → P k (g v)) → Every P (update_key k g m)
  unfolding update_key
  update_key-Every {P} h keep = revised (lookup k m) refl
    where
      revised : (o : Option V) → lookup k m ≡ o → Every P (revise k g m o)
      revised none e = h
      revised (some v) e = Every-insert k (g v) m h (keep v (h k v e))

  pub update_key_others : (j : ℕ) → k ≢ j → lookup j (update_key k g m) ≡ lookup j m
  unfolding update_key
  update_key_others j ne = others (lookup k m)
    where
      others : (o : Option V) → lookup j (revise k g m o) ≡ lookup j m
      others none = refl
      others (some v) = lookup-insert_ne j k (g v) m ne

  -- A predicate that the change keeps holds of an entry after it, if it held before.
  pub update_key-keep :
      {P : V → Type 0}
      → ((v : V) → P v → P (g v))
      → (j : ℕ) {v : V} → lookup j m ≡ some v
      → P v
      → (w : V) × (lookup j (update_key k g m) ≡ some w) × P w
  update_key-keep {P} keep j {v} found p = elim (Bool-cases (k == j)) [
    | inl same ↦
        let e : k ≡ j = ground arith in
        let at_k : lookup k m ≡ some v = rw e found in
        (g v, rw (update_key_found at_k, ← e) (lookup-insert_self k (g v) m), keep v p)
    | inr other ↦ (v, rw (update_key_others j (ground arith)) found, p)
  ]
