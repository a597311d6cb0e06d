-- ===== src/Security/Counts.antt =====
-- Counting with a map, `counts.set(k, (counts.get(k) || 0) + 1)`, as the checks of the hardening layer do
-- (src/security/networkHardening.ts).
use abundance_protocol.Prelude.{
  ℕ, suc, ◌+◌, ◌≡◌, ◌↔◌, refl, Bool, false, none, some, List, [], ◌∷◌, ◌==◌, if◌then◌else◌, arith,
  count, inl, inr, Bool-cases, ==_self, ==_iff,
}
use abundance_protocol.Dict.{Dict, lookup, insert, lookup-insert}

abbrev pub count_in : ℕ → Dict ℕ → ℕ
count_in k counts = elim (lookup k counts) [ none ↦ 0 | some n ↦ n ]

unfoldable pub tally : List ℕ → Dict ℕ → Dict ℕ
tally [] counts = counts
tally (k ∷ ks) counts = tally ks (insert k (count_in k counts + 1) counts)

-- How many entries are above the limit.
unfoldable pub excesses : (ℕ → Bool) → Dict ℕ → ℕ
excesses over [] = 0
excesses over ((_, n) ∷ counts) =
    let rest = excesses over counts in if over n then suc rest else rest

-- The map's count is that of the list.
pub count_in-tally :
    (k : ℕ) (ks : List ℕ) (counts : Dict ℕ)
    → count_in k (tally ks counts) ≡ count k ks + count_in k counts
unfolding tally
count_in-tally k [] counts = ground arith
count_in-tally k (j ∷ ks) counts = ground (
  arith,
  count_in-tally k ks (insert j (count_in j counts + 1) counts),
  lookup-insert k j (count_in j counts + 1) counts,
)

-- A key stands once at most.
abbrev pub IsKeyed : Dict ℕ → Type 0
IsKeyed [] = Unit
IsKeyed ((k, _) ∷ counts) = (lookup k counts ≡ none) × IsKeyed counts

insert-IsKeyed : (k n : ℕ) (counts : Dict ℕ) → IsKeyed counts → IsKeyed (insert k n counts)
insert-IsKeyed k n [] h = (refl, tt)
insert-IsKeyed k n ((j, m) ∷ counts) h = elim (Bool-cases (j == k)) [
  | inl same ↦ rw same h
  | inr other ↦
      rw other
        (ground (arith, other, h.0, lookup-insert j k n counts), insert-IsKeyed k n counts h.1)
]

pub tally-IsKeyed : (ks : List ℕ) (counts : Dict ℕ) → IsKeyed counts → IsKeyed (tally ks counts)
unfolding tally
tally-IsKeyed [] counts h = h
tally-IsKeyed (k ∷ ks) counts h = tally-IsKeyed ks _ (insert-IsKeyed k _ counts h)

-- Nothing is above the limit exactly when no key's count is.
pub excesses_none :
    (over : ℕ → Bool) (counts : Dict ℕ)
    → IsKeyed counts
    → over 0 ≡ false
    → (excesses over counts ≡ 0) ↔ ((k : ℕ) → over (count_in k counts) ≡ false)
unfolding excesses
excesses_none over [] h zero_fine = (λ _ k. zero_fine, λ _. refl)
excesses_none over ((j, n) ∷ counts) h zero_fine =
    let later = excesses_none over counts h.1 zero_fine in
    (
      λ e k. elim (Bool-cases (over n)) [
        | inl bad ↦ absurd (ground (arith, bad))
        | inr fine ↦ elim (Bool-cases (j == k)) [
          | inl same ↦ rw (same, count_in) fine
          | inr other ↦ rw (other, count_in) (later.0 (rw fine at e) k)
        ]
      ],
      λ f.
          let fine : over n ≡ false = rw (==_self j, count_in) at (f j) in
          rw fine (
            later.1 (λ k. elim (Bool-cases (j == k)) [
              | inl same ↦
                  let here : j ≡ k = (==_iff j k).0 same in
                  rw (← here) (rw (h.0, count_in) zero_fine)
              | inr other ↦ rw (other, count_in) at (f k)
            ])),
    )
