-- ===== src/Security/Network/Limits/Identities.antt =====
-- How many identities an address gets.
use abundance_protocol.Prelude.{
  ℕ, ◌≤◌, ◌≡◌, refl, Bool, true, false, not, List, [], ◌∷◌, ◌++◌, leb, length, select, arith, inl,
  inr, Bool-cases, ap,
}
use abundance_protocol.Dict.{lookup-insert_self}
use abundance_protocol.Security.Window.{is_recent, Ascends, Limiter, admitted, admitted_few}
use abundance_protocol.Security.Network.{NetworkHardening}
use abundance_protocol.Security.Network.Limits.{timestamps_of, rate_limit_new_identities}

module _ (ip window_ms max_new : ℕ) where
  full : ℕ → NetworkHardening → Bool
  full now s = leb max_new (length (select (is_recent window_ms now) (timestamps_of ip s)))

  pub answers_lem :
      (now : ℕ) (s : NetworkHardening)
      → (rate_limit_new_identities ip window_ms max_new now s).0
        ≡ not (leb max_new (length (select (is_recent window_ms now) (timestamps_of ip s))))
  unfolding rate_limit_new_identities full
  answers_lem now s = elim (Bool-cases (full now s)) [ inl e ↦ rw e refl | inr e ↦ rw e refl ]

  pub admits_lem :
      (now : ℕ) (s : NetworkHardening)
      → (rate_limit_new_identities ip window_ms max_new now s).0 ≡ true
      → timestamps_of ip (rate_limit_new_identities ip window_ms max_new now s).1
        ≡ select (is_recent window_ms now) (timestamps_of ip s) ++ (now ∷ [])
  unfolding rate_limit_new_identities full
  admits_lem now s h = elim (Bool-cases (full now s)) [
    | inl e ↦ let h' : false ≡ true = rw e at h in cc
    | inr e ↦
        let kept = select (is_recent window_ms now) (timestamps_of ip s) ++ (now ∷ []) in
        rw e (rw (lookup-insert_self ip kept s.identity_rate_limiter, timestamps_of) refl)
  ]

  pub refuses_lem :
      (now : ℕ) (s : NetworkHardening)
      → (rate_limit_new_identities ip window_ms max_new now s).0 ≡ false
      → (rate_limit_new_identities ip window_ms max_new now s).1 ≡ s
  unfolding rate_limit_new_identities full
  refuses_lem now s h = elim (Bool-cases (full now s)) [
    | inl e ↦ rw e refl
    | inr e ↦ let h' : true ≡ false = rw e at h in cc
  ]

  unfoldable pub identities : Limiter NetworkHardening window_ms max_new
  identities = record {
    window = timestamps_of ip;
    ask = rate_limit_new_identities ip window_ms max_new;
    answers = answers_lem;
    admits = admits_lem;
    refuses = λ now s h.
        ap (λ r. select (is_recent window_ms now) (timestamps_of ip r)) (refuses_lem now s h);
  }

  -- An address that has nothing noted gets at most `max_new` identities in the last `window_ms`
  -- milliseconds before any of its requests, that request included, if the clock does not go back.
  pub identities_few :
      (t now : ℕ) (ts : List ℕ) (s : NetworkHardening)
      → Ascends t (ts ++ (now ∷ []))
      → timestamps_of ip s ≡ []
      → length (
          select
            (is_recent window_ms now)
            (admitted window_ms max_new identities (ts ++ (now ∷ [])) s))
        ≤ max_new
  unfolding identities
  identities_few t now ts s up none_yet =
      admitted_few window_ms max_new identities t now ts [] s up
        (record { same = ap (select (is_recent window_ms t)) none_yet; few = omega arith })
