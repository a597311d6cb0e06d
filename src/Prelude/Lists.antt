-- ===== src/Prelude/Lists.antt =====
-- Lists measured and indexed by native numbers, under the library's names.
use Prim.Native.Nat.{ℕ, zero, suc, ◌+◌, ◌≤◌}
use mathlib.Core.Path.{◌≡◌, refl}
use mathlib.Core.Bool.{◌||◌, true, false, Bool}
use mathlib.Core.List.{List, [], ◌∷◌, ◌++◌}
use mathlib.Core.Option.{Option, none, some}
use native.Mathlib.Omega.{arith}
use abundance_protocol.Prelude.Tests.{if◌then◌else◌, ◌==◌}

module _ {ℓ} {A : Type ℓ} where
  abbrev pub length : List A → ℕ
  length [] = 0
  length (x ∷ xs) = suc (length xs)

  abbrev pub get_elem? : List A → ℕ → Option A
  get_elem? [] i = none
  get_elem? (x ∷ xs) zero = some x
  get_elem? (x ∷ xs) (suc i) = get_elem? xs i

  -- A write out of bounds changes nothing.
  abbrev pub set : List A → ℕ → A → List A
  set [] i v = []
  set (x ∷ xs) zero v = v ∷ xs
  set (x ∷ xs) (suc i) v = x ∷ set xs i v

  abbrev pub take : ℕ → List A → List A
  take zero xs = []
  take (suc n) [] = []
  take (suc n) (x ∷ xs) = x ∷ take n xs

  -- `filter` with a Boolean test, in the order of the list.
  abbrev pub select : (A → Bool) → List A → List A
  select p [] = []
  select p (x ∷ xs) = let rest = select p xs in if p x then x ∷ rest else rest

  pub length-append : (xs ys : List A) → length (xs ++ ys) ≡ length xs + length ys
  length-append [] ys = omega arith
  length-append (x ∷ xs) ys = omega (arith, length-append xs ys)

  pub length-select : (p : A → Bool) (xs : List A) → length (select p xs) ≤ length xs
  length-select p [] = omega arith
  length-select p (x ∷ xs) = ground (arith, length-select p xs)

-- `reduce((a, b) => a + b, 0)` over numbers
abbrev pub sum : List ℕ → ℕ
sum [] = 0
sum (x ∷ xs) = x + sum xs

pub sum-take-suc :
    (xs : List ℕ) (i : ℕ) {x : ℕ}
    → get_elem? xs i ≡ some x
    → sum (take (suc i) xs) ≡ sum (take i xs) + x
sum-take-suc [] i e = ground arith
sum-take-suc (y ∷ xs) zero e = ground arith
sum-take-suc (y ∷ xs) (suc i) e = omega (arith, sum-take-suc xs i e)

pub sum-take-le : (n : ℕ) (xs : List ℕ) → sum (take n xs) ≤ sum xs
sum-take-le zero xs = omega arith
sum-take-le (suc n) [] = omega arith
sum-take-le (suc n) (x ∷ xs) = omega (arith, sum-take-le n xs)

pub sum-take-length : (xs : List ℕ) → sum (take (length xs) xs) ≡ sum xs
sum-take-length [] = refl
sum-take-length (x ∷ xs) = omega (arith, sum-take-length xs)

module _ {ℓ κ} {A : Type ℓ} (P : A → Type κ) where
  abbrev pub All : List A → Type κ
  All [] = Unit
  All (x ∷ xs) = P x × All xs

module _ {ℓ} {A : Type ℓ} where
  abbrev pub replicate : ℕ → A → List A
  replicate zero a = []
  replicate (suc n) a = a ∷ replicate n a

-- How often a number stands in a list.
abbrev pub count : ℕ → List ℕ → ℕ
count n [] = 0
count n (m ∷ ms) = (if m == n then 1 else 0) + count n ms

pub count-append : (n : ℕ) (ks ms : List ℕ) → count n (ks ++ ms) ≡ count n ks + count n ms
count-append n [] ms = ground arith
count-append n (k ∷ ks) ms = ground (arith, count-append n ks ms)

-- A Set as the list of its elements, in order of insertion.
abbrev pub includes : ℕ → List ℕ → Bool
includes n [] = false
includes n (m ∷ ms) = let rest = includes n ms in m == n || rest

abbrev pub include : ℕ → List ℕ → List ℕ
include n ms = if includes n ms then ms else ms ++ n ∷ []

abbrev pub exclude : ℕ → List ℕ → List ℕ
exclude n [] = []
exclude n (m ∷ ms) = let rest = exclude n ms in if m == n then rest else m ∷ rest

pub includes-append :
    (k n : ℕ) (ms : List ℕ) → includes k (ms ++ n ∷ []) ≡ (if n == k then true else includes k ms)
includes-append k n [] = ground arith
includes-append k n (m ∷ ms) = ground (arith, includes-append k n ms)

pub includes-include :
    (k n : ℕ) (ms : List ℕ) → includes k (include n ms) ≡ (if n == k then true else includes k ms)
includes-include k n ms = ground (arith, includes-append k n ms)

pub includes-exclude :
    (k n : ℕ) (ms : List ℕ) → includes k (exclude n ms) ≡ (if n == k then false else includes k ms)
includes-exclude k n [] = ground arith
includes-exclude k n (m ∷ ms) = ground (arith, includes-exclude k n ms)
