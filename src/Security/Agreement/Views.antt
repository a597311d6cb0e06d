-- ===== src/Security/Agreement/Views.antt =====
-- How many view changes there are.
use abundance_protocol.Prelude.{
  ℕ, ◌≤◌, ◌≡◌, refl, Bool, true, false, List, [], ◌∷◌, ◌++◌, leb, length, select, arith, inl, inr,
  Bool-cases, ap,
}
use abundance_protocol.Security.Window.{
  is_recent, Ascends, select-select, Limiter, admitted, admitted_few,
}
use abundance_protocol.Security.Agreement.{ConsensusHardening, rate_limit_view_changes}

module _ (most window_ms : ℕ) where
  full : ℕ → ConsensusHardening → Bool
  full now s = leb most (length (select (is_recent window_ms now) s.view_change_history))

  unfoldable view_changes : Limiter ConsensusHardening window_ms most
  unfolding rate_limit_view_changes full
  view_changes = record {
    window = λ s. s.view_change_history;
    ask = rate_limit_view_changes most window_ms;
    answers = λ now s. elim (Bool-cases (full now s)) [ inl e ↦ rw e refl | inr e ↦ rw e refl ];
    admits = λ now s h. elim (Bool-cases (full now s)) [
      | inl e ↦ let h' : false ≡ true = rw e at h in cc
      | inr e ↦ rw e refl
    ];
    refuses = λ now s h. elim (Bool-cases (full now s)) [
      | inl e ↦ rw e (select-select window_ms now now s.view_change_history (omega arith))
      | inr e ↦ let h' : true ≡ false = rw e at h in cc
    ];
  }

  -- Where no view change is noted, at most `most` of those asked for are allowed in the last `window_ms`
  -- milliseconds before any request, that request included, if the clock does not go back.
  view_changes_few :
      (t now : ℕ) (ts : List ℕ) (s : ConsensusHardening)
      → Ascends t (ts ++ (now ∷ []))
      → s.view_change_history ≡ []
      → length (
          select
            (is_recent window_ms now)
            (admitted window_ms most view_changes (ts ++ (now ∷ [])) s))
        ≤ most
  unfolding view_changes
  view_changes_few t now ts s up none_yet =
      admitted_few window_ms most view_changes t now ts [] s up
        (record { same = ap (select (is_recent window_ms t)) none_yet; few = omega arith })
