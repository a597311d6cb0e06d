-- ===== src/Reputation/Bans/Changes.antt =====
-- A ban when scores change.
use abundance_protocol.Prelude.{
  ℕ, ◌≡◌, ◌≢◌, refl, true, false, some, [], ◌∷◌, leb, arith, inl, inr, Option-cases, Bool-cases,
}
use abundance_protocol.Dict.{Dict, lookup, insert, has, lookup-insert, lookup-insert_ne}
use abundance_protocol.Registry.{update_key, update_key_missing, update_key_found}
use abundance_protocol.Reputation.{
  Fractions, ReputationScore, NodeMetadata, Manager, slashed, flag, ensure,
}
use abundance_protocol.Reputation.Stakes.{change_score}
use abundance_protocol.Reputation.Tasks.{on_node}
use abundance_protocol.Reputation.Slashing.{
  SlashForm, is_banned, slash_amount, slash_score, punish, slash_known, slash,
}
use abundance_protocol.Reputation.Queries.{decay_loop, decay_scores}
use abundance_protocol.Reputation.Bans.{IsOut}
use abundance_protocol.Reputation.Bans.Entry.{
  else-IsOut, edit-IsOut, insert_score-IsOut, ensure-IsOut,
}

module _ {R : Type 0} (num : Fractions R) where
  has-update_key :
      (i k : ℕ) (g : ReputationScore R → ReputationScore R) (m : Dict (ReputationScore R))
      → has i m ≡ true
      → has i (update_key k g m) ≡ true
  has-update_key i k g m h = elim (Option-cases (lookup k m)) [
    | inl missing ↦ rw (update_key_missing k g m missing) h
    | inr (score, found) ↦
        rw (update_key_found k g m found) (ground (arith, h, lookup-insert i k (g score) m))
  ]

  pub change_score-IsOut :
      (i k now : ℕ) (g : ReputationScore R → ReputationScore R) (s : Manager R)
      → IsOut i s
      → IsOut i (change_score num k now g s)
  unfolding change_score is_banned
  change_score-IsOut i k now g s h =
      let h' = ensure-IsOut num i k now s h in
      record {
        known = has-update_key i k g (ensure num k now s).scores h'.known;
        banned = h'.banned;
      }

  -- A node whose metadata say that it is not banned is another one.
  other_node :
      (i k : ℕ) (s : Manager R) {meta : NodeMetadata R}
      → is_banned i s ≡ true
      → lookup k s.metadata ≡ some meta
      → meta.banned ≡ false
      → k ≢ i
  unfolding is_banned
  other_node i k s {meta} h found free e = absurd (ground (arith, h, found, free))

  insert_both-IsOut :
      (i k : ℕ) (score : ReputationScore R) (meta : NodeMetadata R) (s : Manager R)
      → k ≢ i
      → IsOut i s
      → IsOut i (record s { scores = insert k score s.scores; metadata = insert k meta s.metadata })
  unfolding is_banned
  insert_both-IsOut i k score meta s ne h = record {
    known = ground (arith, h.known, lookup-insert i k score s.scores);
    banned = rw (is_banned, lookup-insert_ne i k meta s.metadata ne) h.banned;
  }

  pub on_node-IsOut :
      (i k now : ℕ) (g : ReputationScore R → NodeMetadata R → ReputationScore R × NodeMetadata R)
      (s : Manager R)
      → IsOut i s
      → IsOut i (on_node num k now g s)
  unfolding on_node
  on_node-IsOut i k now g s h =
      let s' = ensure num k now s in
      let h' = ensure-IsOut num i k now s h in
      elim (Option-cases (lookup k s'.scores)) [
        | inl missing ↦ rw (missing, on_node) h'
        | inr (score, found) ↦ elim (Option-cases (lookup k s'.metadata)) [
          | inl absent ↦ rw (found, absent, on_node) h'
          | inr (meta, there) ↦
              rw (found, there, on_node)
                (else-IsOut num i meta.banned s' _ h' (λ free.
                  insert_both-IsOut i k (g score meta).0 (g score meta).1 s'
                    (other_node i k s' h'.banned there free) h'))
        ]
      ]

  punish-IsOut :
      (i k : ℕ) (form : SlashForm R) (reason now : ℕ) (score : ReputationScore R) (s : Manager R)
      → IsOut i s
      → IsOut i (punish num k form reason now score s).1
  punish-IsOut i k form reason now score s h =
      let amount = slash_amount num form score s in
      let score' = slash_score num amount s score in
      let mark = flag num (slashed score'.slash_count reason amount) in
      let flagged : (x : ReputationScore R)
          → IsOut i
              (record s { scores = insert k x s.scores; metadata = update_key k mark s.metadata }) =
        λ x.
          edit-IsOut num i k mark (record s { scores = insert k x s.scores }) (λ m e. e)
            (insert_score-IsOut num i k x s h) in
      elim (Bool-cases (leb s.config.slash_threshold score'.slash_count)) [
        | inl e ↦ rw e (
            edit-IsOut num i k (λ meta. record meta { banned = true }) _ (λ m e. refl)
              (flagged (record score' { overall = num.lit 0 1 })))
        | inr e ↦ rw e (flagged (record score' { last_active = now }))
      ]

  pub slash-IsOut :
      (i k : ℕ) (form : SlashForm R) (reason now : ℕ) (s : Manager R)
      → IsOut i s
      → IsOut i (slash num k form reason now s).1
  unfolding slash slash_known
  slash-IsOut i k form reason now s h =
      let s' = ensure num k now s in
      let h' = ensure-IsOut num i k now s h in
      elim (Option-cases (lookup k s'.scores)) [
        | inl missing ↦ rw (missing, slash_known) h'
        | inr (score, found) ↦ elim (Bool-cases (is_banned k s')) [
          | inl out ↦ rw (found, out, slash_known) h'
          | inr free ↦ rw (found, free, slash_known) (punish-IsOut i k form reason now score s' h')
        ]
      ]

  has-decay_loop :
      (i now : ℕ) (s : Manager R) (m : Dict (ReputationScore R))
      → has i (decay_loop num now s m) ≡ has i m
  unfolding decay_loop
  has-decay_loop i now s [] = refl
  has-decay_loop i now s ((k, score) ∷ m) = ground (arith, has-decay_loop i now s m)

  pub decay_scores-IsOut :
      (i now : ℕ) (s : Manager R) → IsOut i s → IsOut i (decay_scores num now s)
  unfolding decay_scores is_banned
  decay_scores-IsOut i now s h = record {
    known = rw (has-decay_loop i now s s.scores) h.known;
    banned = h.banned;
  }
