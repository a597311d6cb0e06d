-- ===== src/Manufacturing/Escrows/Payouts.antt =====
-- What each method of the escrow service pays, and when it pays.
use mathlib.Core.Path.{subst}
use native.Mathlib.Numerals.{add-one}
use abundance_protocol.Prelude.{
  sym, ◌≤◌, ◌*◌, ◌/◌, ℕ, suc, ◌+◌, ◌<◌, ◌≡◌, ◌↔◌, refl, inl, inr, some, true, List, [], ◌∷◌, zero,
  arith, length, Option-cases, get_elem?, sum-take-suc, sum-take-le,
}
use abundance_protocol.Prelude.Int.{
  ℤ, pos, negsuc, ◌+ℤ◌, ◌-ℤ◌, ◌≤ℤ◌, int_laws, scale, quot, pos_part, neg_part,
}
use abundance_protocol.Dict.{Dict, lookup, insert, lookup-insert_self}
use abundance_protocol.Result.{Result, ok, err, is_ok}
use abundance_protocol.Registry.{at_key_found, at_key-ok, commit}
use abundance_protocol.Manufacturing.Escrows.{
  disputed, resolve_on, resolve_dispute, PoEscrow, EscrowError, released, remaining, release_guards,
  release_update, release_on, release_milestone, get_released_amount, get_remaining_amount,
  not_found,
}
use abundance_protocol.Manufacturing.Escrows.Custody.{IsSound, IsValid}

pub get_elem?-some_of_lt {ℓ} :
    {A : Type ℓ} (xs : List A) (k : ℕ) → k < length xs → (x : A) × (get_elem? xs k ≡ some x)
get_elem?-some_of_lt [] k h = absurd (omega arith)
get_elem?-some_of_lt (x ∷ xs) zero h = (x, refl)
get_elem?-some_of_lt (x ∷ xs) (suc k) h = get_elem?-some_of_lt xs k (omega arith)

remaining_nonneg : (e : PoEscrow) → IsSound e → pos 0 ≤ℤ remaining e
remaining_nonneg e v =
    omega (int_laws, v.covered, sum-take-le e.milestones_completed e.milestone_amounts)

-- The released amount of an escrow that the Map holds.
get_released_found :
    (m : Dict PoEscrow) (i : ℕ) {e : PoEscrow}
    → lookup i m ≡ some e
    → get_released_amount m i ≡ released e
unfolding get_released_amount
get_released_found m i h = rw (h, get_released_amount)

pub get_remaining_found :
    (m : Dict PoEscrow) (i : ℕ) {e : PoEscrow}
    → lookup i m ≡ some e
    → get_remaining_amount m i ≡ remaining e
unfolding get_remaining_amount
get_remaining_found m i h = rw (h, get_remaining_amount, get_released_found m i h)

release_on-ok :
    (k : ℕ) (e w : PoEscrow) {a : ℕ}
    → release_on k e ≡ ok (a, w)
    → (k ≡ e.milestones_completed)
      × (get_elem? e.milestone_amounts k ≡ some a)
      × (w ≡ release_update e)
unfolding release_on release_guards
release_on-ok k e w h = ground arith

release_on_next :
    (k : ℕ) (e : PoEscrow) {a : ℕ}
    → k ≡ e.milestones_completed
    → k < length e.milestone_amounts
    → get_elem? e.milestone_amounts k ≡ some a
    → release_on k e ≡ ok (a, release_update e)
unfolding release_on release_guards
release_on_next k e p q h = ground arith

release_on_guarded :
    (k : ℕ) (e : PoEscrow)
    → is_ok (release_on k e) ≡ true
    → (k ≡ e.milestones_completed) × (k < length e.milestone_amounts)
unfolding release_on release_guards
release_on_guarded k e h = ground arith

is_ok-commit :
    {A : Type 0} (k : ℕ) (m : Dict PoEscrow) (r : Result EscrowError (A × PoEscrow))
    → is_ok (commit k m r).0 ≡ is_ok r
is_ok-commit k m (ok _) = refl
is_ok-commit k m (err _) = refl

-- The guards of a release, both ways: on an escrow of the Map it returns exactly when the index is
-- that of the next milestone, and there is one. (The status of the escrow is not asked.)
pub release_milestone_iff :
    (m : Dict PoEscrow) (i k : ℕ) {e : PoEscrow}
    → lookup i m ≡ some e
    → (is_ok (release_milestone i k m).0 ≡ true)
      ↔ ((k ≡ e.milestones_completed) × (k < length e.milestone_amounts))
unfolding release_milestone
release_milestone_iff m i k {e} h =
    rw (at_key_found not_found i (release_on k) m h, is_ok-commit i m (release_on k e))
      (
        release_on_guarded k e,
        λ (p, q).
            let (a, g) = get_elem?-some_of_lt e.milestone_amounts k q in
            rw (release_on_next k e p q g),
      )

release_on_pays :
    (k : ℕ) (v w : PoEscrow) {a : ℕ}
    → release_on k v ≡ ok (a, w)
    → (released w ≡ released v + a) × (remaining w +ℤ pos a ≡ remaining v)
unfolding release_update
release_on_pays k v w {a} h =
    let (same, amount, new) = release_on-ok k v w h in
    let total : w.total_amount ≡ v.total_amount = rw new in
    let paid : released w ≡ released v + a =
      rw (new, ← same, add-one) (sum-take-suc v.milestone_amounts k amount) in
    (paid, omega int_laws)

-- A release that returns pays the amount of the milestone, and moves it from the remaining amount
-- to the released one.
pub release_milestone_pays :
    (m : Dict PoEscrow) (i k : ℕ) {a : ℕ}
    → (release_milestone i k m).0 ≡ ok a
    → let m' = (release_milestone i k m).1 in
      (get_released_amount m' i ≡ get_released_amount m i + a)
      × (get_remaining_amount m' i +ℤ pos a ≡ get_remaining_amount m i)
unfolding release_milestone
release_milestone_pays m i k h =
    let (v, w, found, done, now) = at_key-ok not_found i (release_on k) m h in
    let after = lookup-insert_self i w m in
    let (paid, left) = release_on_pays k v w done in
    rw (now, get_released_found m i found, get_remaining_found m i found)
      (rw (get_released_found (insert i w m) i after, get_remaining_found (insert i w m) i after)
        (paid, left))

-- In a valid Map what is left of an escrow is never negative: it is the total less the released.
get_remaining_nonneg : (m : Dict PoEscrow) (i : ℕ) → IsValid m → pos 0 ≤ℤ get_remaining_amount m i
get_remaining_nonneg m i v = elim (Option-cases (lookup i m)) [
  | inl missing ↦ unfold get_remaining_amount in rw (missing, get_remaining_amount) (omega arith)
  | inr (e, found) ↦ rw (get_remaining_found m i found) (remaining_nonneg e (v i e found))
]

abbrev Splits : ℤ → ℕ → ℤ × ℤ → Type 0
Splits r p (b, f) =
    (b +ℤ f ≡ r)
    × (pos 0 ≤ℤ b)
    × (pos 0 ≤ℤ f)
    × (pos_part b * 100 ≤ pos_part r * p)
    × (pos_part r * p < pos_part b * 100 + 100)

div_share : (r p : ℕ) → p ≤ 100 → r * p / 100 ≤ r
div_share r p h = let q : r * p ≤ r * 100 = grind arith in omega arith

split-pos :
    (r p : ℕ) → p ≤ 100 → let b = quot (scale (pos r) p) 100 in Splits (pos r) p (b, pos r -ℤ b)
unfolding quot scale ◌+ℤ◌ ◌-ℤ◌
split-pos r p h = ground (arith, div_share r p h)

resolve_on-ok :
    (p : ℤ) (e w : PoEscrow) {s : ℤ × ℤ}
    → resolve_on p e ≡ ok (s, w)
    → (e.status ≡ disputed)
      × (neg_part p ≡ 0)
      × (pos_part p ≤ 100)
      × (s ≡ (
        quot (scale (remaining e) (pos_part p)) 100,
        remaining e -ℤ quot (scale (remaining e) (pos_part p)) 100,
      ))
unfolding resolve_on
resolve_on-ok p e w h = ground arith

split-shares :
    (r : ℤ) (p : ℕ)
    → pos 0 ≤ℤ r
    → p ≤ 100
    → Splits r p (quot (scale r p) 100, r -ℤ quot (scale r p) 100)
split-shares (pos r) p nonneg h = split-pos r p h
split-shares (negsuc r) p nonneg h = absurd (omega arith)

-- A resolution that returns was asked of a disputed escrow of the Map, with a percentage from 0 to
-- 100. In a valid Map it divides what is left without loss: the two amounts add up to it, neither
-- is negative, and the buyer's is the percentage of it, rounded down.
pub resolve_dispute_shares :
    (m : Dict PoEscrow) (i : ℕ) (p : ℤ) {b f : ℤ}
    → IsValid m
    → (resolve_dispute i p m).0 ≡ ok (b, f)
    → let r = get_remaining_amount m i in
      ((e : PoEscrow) × (lookup i m ≡ some e) × (e.status ≡ disputed))
      × (pos 0 ≤ℤ p)
      × (p ≤ℤ pos 100)
      × (b +ℤ f ≡ r)
      × (pos 0 ≤ℤ b)
      × (pos 0 ≤ℤ f)
      × (pos_part b * 100 ≤ pos_part r * pos_part p)
      × (pos_part r * pos_part p < pos_part b * 100 + 100)
unfolding resolve_dispute
resolve_dispute_shares m i p {b} {f} valid h =
    let (v, w, found, done, now) = at_key-ok not_found i (resolve_on p) m h in
    let (was, nonneg, within, amounts) = resolve_on-ok p v w done in
    let split =
      split-shares (remaining v) (pos_part p) (remaining_nonneg v (valid i v found)) within in
    let (whole, b_nonneg, f_nonneg, down, close) =
      subst (Splits (remaining v) (pos_part p)) (sym amounts) split in
    rw (get_remaining_found m i found)
      ((v, found, was), omega arith, omega arith, whole, b_nonneg, f_nonneg, down, close)
