-- ===== src/Reputation/Bans/Threshold.antt =====
-- How many slashes lead to a ban.
use abundance_protocol.Prelude.{
  ℕ, suc, ◌+◌, ◌≤◌, ◌<◌, ◌⊎◌, ◌≡◌, refl, true, false, some, List, [], ◌∷◌, leb, if◌then◌else◌,
  arith, inl, inr, Bool-cases, length,
}
use abundance_protocol.Dict.{Dict, lookup, lookup-insert_self}
use abundance_protocol.Registry.{update_key, update_key_found}
use abundance_protocol.Reputation.{Fractions, ReputationScore, NodeMetadata, Manager, slashed, flag}
use abundance_protocol.Reputation.Slashing.{
  SlashForm, is_banned, slash_amount, slash_score, punish, slash_known, slash,
}
use abundance_protocol.Reputation.Bans.{IsOut}
use abundance_protocol.Reputation.Bans.Entry.{ensure_known}
use abundance_protocol.Reputation.Bans.Changes.{slash-IsOut}

-- A node that has metadata and a score, with at least so many slashes.
pub record HasSlashes {R : Type 0} (i n : ℕ) (s : Manager R) : Type 0 where
  pub score : ReputationScore R
  pub scored : lookup i s.scores ≡ some score
  pub counted : n ≤ score.slash_count
  pub meta : NodeMetadata R
  pub noted : lookup i s.metadata ≡ some meta

-- A slash: its form, its reason and its time.
abbrev pub Slash : Type 0 → Type 0
Slash R = SlashForm R × ℕ × ℕ

module _ {R : Type 0} (num : Fractions R) where
  -- Slashes of one node, one after the other.
  abbrev pub slash_all : ℕ → List (Slash R) → Manager R → Manager R
  slash_all i [] s = s
  slash_all i ((form, reason, now) ∷ xs) s = slash_all i xs (slash num i form reason now s).1

  punish_config :
      (i : ℕ) (form : SlashForm R) (reason now : ℕ) (score : ReputationScore R) (s : Manager R)
      → (punish num i form reason now score s).1.config ≡ s.config
  punish_config i form reason now score s =
      elim (Bool-cases (
        leb s.config.slash_threshold
          (slash_score num (slash_amount num form score s) s score).slash_count)) [
            | inl e ↦ rw e refl
            | inr e ↦ rw e refl
          ]

  found_update :
      (i : ℕ) (g : NodeMetadata R → NodeMetadata R) (m : Dict (NodeMetadata R)) {x : NodeMetadata R}
      → lookup i m ≡ some x
      → lookup i (update_key i g m) ≡ some (g x)
  found_update i g m {x} e = rw (update_key_found i g m e) (lookup-insert_self i (g x) m)

  punished :
      (i : ℕ) (form : SlashForm R) (reason now n : ℕ) (s : Manager R) (h : HasSlashes i n s)
      → let r = (punish num i form reason now h.score s).1 in
        IsOut i r ⊎ (HasSlashes i (suc n) r × (suc n < s.config.slash_threshold))
  unfolding is_banned slash_score
  punished i form reason now n s h =
      let amount = slash_amount num form h.score s in
      let score' = slash_score num amount s h.score in
      let mark = flag num (slashed score'.slash_count reason amount) in
      let marked = found_update i mark s.metadata h.noted in
      let ban : NodeMetadata R → NodeMetadata R = λ meta. record meta { banned = true } in
      let kept = record score' { last_active = now } in
      elim (Bool-cases (leb s.config.slash_threshold score'.slash_count)) [
        | inl e ↦ inl (
            rw e (record {
              known =
                  ground (
                    arith,
                    lookup-insert_self i (record score' { overall = num.lit 0 1 }) s.scores,
                  );
              banned =
                  rw (found_update i ban (update_key i mark s.metadata) marked, is_banned) refl;
            }))
        | inr e ↦ inr (
          rw e (record {
            score = kept;
            scored = lookup-insert_self i kept s.scores;
            counted = omega (arith, h.counted);
            meta = mark h.meta;
            noted = marked;
          }),
          ground (arith, h.counted, e),
        )
      ]

  slash_lem :
      (i : ℕ) (form : SlashForm R) (reason now : ℕ) (s : Manager R) {score : ReputationScore R}
      → lookup i s.scores ≡ some score
      → slash num i form reason now s
        ≡ (if is_banned i s then (false, s) else punish num i form reason now score s)
  unfolding slash slash_known
  slash_lem i form reason now s found =
      rw (ensure_known num i now s found) (rw (found, slash_known) refl)

  slashed_once :
      (i : ℕ) (form : SlashForm R) (reason now n : ℕ) (s : Manager R)
      → HasSlashes i n s
      → let r = (slash num i form reason now s).1 in
        IsOut i r
        ⊎ (HasSlashes i (suc n) r × (suc n < s.config.slash_threshold) × (r.config ≡ s.config))
  slashed_once i form reason now n s h = elim (Bool-cases (is_banned i s)) [
    | inl out ↦ inl (
        rw (slash_lem i form reason now s h.scored, out)
          (record { known = ground (arith, h.scored); banned = out }))
    | inr free ↦ elim (punished i form reason now n s h) [
      | inl out ↦ inl (rw (slash_lem i form reason now s h.scored, free) out)
      | inr (more, below) ↦ inr (
          rw (slash_lem i form reason now s h.scored, free)
            (more, below, punish_config i form reason now h.score s))
    ]
  ]

  stays-IsOut :
      (i : ℕ) (xs : List (Slash R)) (s : Manager R) → IsOut i s → IsOut i (slash_all i xs s)
  stays-IsOut i [] s h = h
  stays-IsOut i ((form, reason, now) ∷ xs) s h =
      stays-IsOut i xs (slash num i form reason now s).1 (slash-IsOut num i i form reason now s h)

  -- Slashing ends in a ban: a node that has at least n slashes is banned after so many more that the
  -- threshold is reached, one at the least, whatever their amounts, reasons and times are.
  pub slash_all-IsOut :
      (i n : ℕ) (xs : List (Slash R)) (s : Manager R)
      → HasSlashes i n s
      → s.config.slash_threshold ≤ n + length xs
      → 1 ≤ length xs
      → IsOut i (slash_all i xs s)
  slash_all-IsOut i n [] s h reach some_slash = absurd (ground arith)
  slash_all-IsOut i n ((form, reason, now) ∷ xs) s h reach some_slash =
      let r = (slash num i form reason now s).1 in
      elim (slashed_once i form reason now n s h) [
        | inl out ↦ stays-IsOut i xs r out
        | inr (more, below, same) ↦
            slash_all-IsOut i (suc n) xs r more (rw same (omega (arith, reach)))
              (omega (arith, reach, below))
      ]
