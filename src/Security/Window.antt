-- ===== src/Security/Window.antt =====
-- Sliding windows of times, which the limits of the hardening layer share
-- (src/security/lightningHardening.ts, src/security/networkHardening.ts).
use abundance_protocol.Prelude.{
  ℕ, ◌+◌, ◌≤◌, ◌≡◌, refl, Bool, true, false, not, List, [], ◌∷◌, ◌++◌, ltb, leb, if◌then◌else◌,
  length, select, arith, inl, inr, Bool-cases, ap, sym, ◌∙◌, length-append, length-select,
}

-- `ts > now - windowMs`, and `now - ts < windowMs`, where the difference may be negative
abbrev pub is_recent : ℕ → ℕ → ℕ → Bool
is_recent window_ms now ts = ltb now (ts + window_ms)

-- The clock does not go back from a time on.
abbrev pub Ascends : ℕ → List ℕ → Type 0
Ascends t [] = Unit
Ascends t (now ∷ ts) = (t ≤ now) × Ascends now ts

pub select-append :
    (p : ℕ → Bool) (xs ys : List ℕ) → select p (xs ++ ys) ≡ select p xs ++ select p ys
select-append p [] ys = refl
select-append p (x ∷ xs) ys = elim (Bool-cases (p x)) [
  | inl e ↦ rw (e, select-append p xs ys)
  | inr e ↦ rw (e, select-append p xs ys)
]

-- What is recent later on was recent before.
pub select-select :
    (w t now : ℕ) (xs : List ℕ)
    → t ≤ now
    → select (is_recent w now) (select (is_recent w t) xs) ≡ select (is_recent w now) xs
select-select w t now [] le = refl
select-select w t now (x ∷ xs) le = ground (arith, select-select w t now xs le)

pub append_assoc : (xs ys zs : List ℕ) → (xs ++ ys) ++ zs ≡ xs ++ (ys ++ zs)
append_assoc [] ys zs = refl
append_assoc (x ∷ xs) ys zs = ap (λ r. x ∷ r) (append_assoc xs ys zs)

-- Two lists with the same recent times have them later on.
pub same_later :
    (w t now : ℕ) (xs ys : List ℕ)
    → t ≤ now
    → select (is_recent w t) xs ≡ select (is_recent w t) ys
    → select (is_recent w now) xs ≡ select (is_recent w now) ys
same_later w t now xs ys le e =
    sym (select-select w t now xs le)
    ∙ ap (select (is_recent w now)) e
    ∙ select-select w t now ys le

-- A limit of `most` in a window: what asks it, which window it keeps, and how it answers.
pub record Limiter (S : Type 0) (w most : ℕ) : Type 0 where
  pub window : S → List ℕ
  pub ask : ℕ → S → Bool × S
  pub answers :
      (now : ℕ) (s : S)
      → (ask now s).0 ≡ not (leb most (length (select (is_recent w now) (window s))))
  pub admits :
      (now : ℕ) (s : S)
      → (ask now s).0 ≡ true
      → window (ask now s).1 ≡ select (is_recent w now) (window s) ++ (now ∷ [])
  pub refuses :
      (now : ℕ) (s : S)
      → (ask now s).0 ≡ false
      → select (is_recent w now) (window (ask now s).1) ≡ select (is_recent w now) (window s)

module _ {S : Type 0} (w most : ℕ) (limit : Limiter S w most) where
  -- The times of the calls that are admitted.
  unfoldable pub admitted : List ℕ → S → List ℕ
  admitted [] s = []
  admitted (now ∷ ts) s =
      let rest = admitted ts (limit.ask now s).1 in if (limit.ask now s).0 then now ∷ rest else rest

  -- The window knows the recent ones of the times admitted so far, which are not too many.
  pub record Knows (t : ℕ) (past : List ℕ) (s : S) : Type 0 where
    pub same : select (is_recent w t) (limit.window s) ≡ select (is_recent w t) past
    pub few : length (select (is_recent w t) past) ≤ most

  few_later :
      (t now : ℕ) (past : List ℕ)
      → t ≤ now
      → length (select (is_recent w t) past) ≤ most
      → length (select (is_recent w now) past) ≤ most
  few_later t now past le few =
      let shrinks = length-select (is_recent w now) (select (is_recent w t) past) in
      let same = ap length (select-select w t now past le) in omega (arith, shrinks, same, few)

  refused_step :
      (t now : ℕ) (past : List ℕ) (s : S)
      → t ≤ now
      → Knows t past s
      → (limit.ask now s).0 ≡ false
      → Knows now past (limit.ask now s).1
  refused_step t now past s le k e = record {
    same = limit.refuses now s e ∙ same_later w t now (limit.window s) past le k.same;
    few = few_later t now past le k.few;
  }

  admitted_step :
      (t now : ℕ) (past : List ℕ) (s : S)
      → t ≤ now
      → Knows t past s
      → (limit.ask now s).0 ≡ true
      → Knows now (past ++ (now ∷ [])) (limit.ask now s).1
  admitted_step t now past s le k e =
      let recent = is_recent w now in
      let one = now ∷ [] in
      let valid = same_later w t now (limit.window s) past le k.same in
      let idle = select-select w now now (limit.window s) (omega arith) in
      let split = ap length (select-append recent past one) in
      let parts = length-append (select recent past) (select recent one) in
      let room : length (select recent (limit.window s)) + 1 ≤ most =
        ground (arith, limit.answers now s, e) in
      let kept = ap length valid in
      let added = length-select recent one in
      record {
        same =
            ap (select recent) (limit.admits now s e)
            ∙ select-append recent (select recent (limit.window s)) one
            ∙ ap (λ v. v ++ select recent one) (idle ∙ valid)
            ∙ sym (select-append recent past one);
        few = omega (arith, split, parts, room, kept, added);
      }

  append_nil : (xs : List ℕ) → xs ++ [] ≡ xs
  append_nil [] = refl
  append_nil (x ∷ xs) = ap (λ r. x ∷ r) (append_nil xs)

  -- The recent ones among the admitted times are never more than the limit.
  pub admitted_few :
      (t now : ℕ) (ts past : List ℕ) (s : S)
      → Ascends t (ts ++ (now ∷ []))
      → Knows t past s
      → length (select (is_recent w now) (past ++ admitted (ts ++ (now ∷ [])) s)) ≤ most
  unfolding admitted
  admitted_few t now [] past s up k = elim (Bool-cases (limit.ask now s).0) [
    | inl e ↦ rw e (admitted_step t now past s up.0 k e).few
    | inr e ↦ rw (e, append_nil past) (refused_step t now past s up.0 k e).few
  ]
  admitted_few t now (u ∷ ts) past s up k =
      let s' = (limit.ask u s).1 in
      let rest = admitted (ts ++ (now ∷ [])) s' in
      elim (Bool-cases (limit.ask u s).0) [
        | inl e ↦ rw e (
            rw (append_assoc past (u ∷ []) rest) at (
              admitted_few u now ts (past ++ (u ∷ [])) s' up.1 (admitted_step t u past s up.0 k e)))
        | inr e ↦ rw e (admitted_few u now ts past s' up.1 (refused_step t u past s up.0 k e))
      ]
