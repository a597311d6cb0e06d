-- ===== src/Reputation/Bans/Entry.antt =====
-- A ban when other nodes enter and are flagged.
use abundance_protocol.Prelude.{
  ℕ, ◌≡◌, ◌≢◌, refl, Bool, true, false, none, some, List, [], ◌∷◌, ltb, ◌==◌, if◌then◌else◌, arith,
  inl, inr, Option-cases, include, length,
}
use abundance_protocol.Dict.{Dict, lookup, insert, has, lookup-insert, lookup-insert_ne}
use abundance_protocol.Registry.{update_key, update_key_missing, update_key_found}
use abundance_protocol.Reputation.{
  Fractions, ReputationScore, NodeMetadata, Manager, same_capabilities, flag, nodes_on, new_score,
  new_metadata, sybil_loop, check_sybil_detection, register_ip, initialize_node, ensure,
  register_node_ip,
}
use abundance_protocol.Reputation.Slashing.{is_banned}
use abundance_protocol.Reputation.Bans.{IsOut}

module _ {R : Type 0} (num : Fractions R) where
  -- The metadata of a node after an update that leaves `banned` as it is, or sets it.
  keeps_ban :
      (i k : ℕ) (g : NodeMetadata R → NodeMetadata R) (s s' : Manager R)
      → ((m : NodeMetadata R) → m.banned ≡ true → (g m).banned ≡ true)
      → s'.metadata ≡ update_key k g s.metadata
      → is_banned i s ≡ true
      → is_banned i s' ≡ true
  unfolding is_banned
  keeps_ban i k g s s' keep e h = elim (Option-cases (lookup k s.metadata)) [
    | inl missing ↦ rw (e, update_key_missing k g s.metadata missing) h
    | inr (m, found) ↦
        rw (e, update_key_found k g s.metadata found)
          (ground (arith, found, keep m, h, lookup-insert i k (g m) s.metadata))
  ]

  pub insert_score-IsOut :
      (i k : ℕ) (score : ReputationScore R) (s : Manager R)
      → IsOut i s
      → IsOut i (record s { scores = insert k score s.scores })
  unfolding is_banned
  insert_score-IsOut i k score s h = record {
    known = ground (arith, h.known, lookup-insert i k score s.scores);
    banned = h.banned;
  }

  pub edit-IsOut :
      (i k : ℕ) (g : NodeMetadata R → NodeMetadata R) (s : Manager R)
      → ((m : NodeMetadata R) → m.banned ≡ true → (g m).banned ≡ true)
      → IsOut i s
      → IsOut i (record s { metadata = update_key k g s.metadata })
  edit-IsOut i k g s keep h = record {
    known = h.known;
    banned =
        keeps_ban i k g s (record s { metadata = update_key k g s.metadata }) keep refl h.banned;
  }

  pub if-IsOut :
      (i : ℕ) (c : Bool) (a b : Manager R) → IsOut i a → IsOut i b → IsOut i (if c then a else b)
  if-IsOut i true a b h h' = h
  if-IsOut i false a b h h' = h'

  pub else-IsOut :
      (i : ℕ) (c : Bool) (a b : Manager R)
      → IsOut i a
      → (c ≡ false → IsOut i b)
      → IsOut i (if c then a else b)
  else-IsOut i true a b h f = h
  else-IsOut i false a b h f = f refl

  sybil_loop-IsOut :
      (i k ip : ℕ) (skills : Dict R) (nodes : List ℕ) (s : Manager R)
      → IsOut i s
      → IsOut i (sybil_loop num k ip skills nodes s)
  unfolding sybil_loop
  sybil_loop-IsOut i k ip skills [] s h = h
  sybil_loop-IsOut i k ip skills (j ∷ js) s h = sybil_loop-IsOut i k ip skills js _ (
      if-IsOut i (j == k) s _ h
        (if-IsOut i _ _ s (edit-IsOut i k (flag num (same_capabilities j ip)) s (λ m e. e) h) h))

  register_ip-IsOut : (i k ip : ℕ) (s : Manager R) → IsOut i s → IsOut i (register_ip num k ip s)
  unfolding register_ip check_sybil_detection is_banned
  register_ip-IsOut i k ip s h =
      let nodes = include k (nodes_on num ip s) in
      let s' = record s { ip_registry = insert ip nodes s.ip_registry } in
      let h' : IsOut i s' = record { known = h.known; banned = h.banned } in
      elim (Option-cases (lookup k s.scores)) [
        | inl missing ↦ rw missing (if-IsOut i (ltb (length nodes) 2) s' s' h' h')
        | inr (score, found) ↦ rw found (
            if-IsOut i (ltb (length nodes) 2) s' _ h'
              (sybil_loop-IsOut i k ip score.skills nodes s' h'))
      ]

  pub initialize_node-IsOut :
      (i k ip now : ℕ) (s : Manager R)
      → k ≢ i
      → IsOut i s
      → IsOut i (initialize_node num k ip now s)
  unfolding initialize_node is_banned
  initialize_node-IsOut i k ip now s ne h =
      let s' = record s {
        scores = insert k (new_score num k now) s.scores;
        metadata = insert k (new_metadata num ip now) s.metadata;
      } in
      let h' : IsOut i s' = record {
        known = ground (arith, h.known, lookup-insert i k (new_score num k now) s.scores);
        banned =
            rw (is_banned, lookup-insert_ne i k (new_metadata num ip now) s.metadata ne) h.banned;
      } in
      if-IsOut i (ip == 0) s' _ h' (register_ip-IsOut i k ip s' h')

  known_same : (i k : ℕ) (s : Manager R) → has i s.scores ≡ true → lookup k s.scores ≡ none → k ≢ i
  known_same i k s known missing e = absurd (ground (arith, known, missing))

  pub ensure_known :
      (k now : ℕ) (s : Manager R) {score : ReputationScore R}
      → lookup k s.scores ≡ some score
      → ensure num k now s ≡ s
  unfolding ensure
  ensure_known k now s found = rw (found, ensure) refl

  pub ensure-IsOut : (i k now : ℕ) (s : Manager R) → IsOut i s → IsOut i (ensure num k now s)
  unfolding ensure
  ensure-IsOut i k now s h = elim (Option-cases (lookup k s.scores)) [
    | inl missing ↦
        rw (missing, ensure)
          (initialize_node-IsOut i k 0 now s (known_same i k s h.known missing) h)
    | inr (score, found) ↦ rw (found, ensure) h
  ]

  pub register_node_ip-IsOut :
      (i k ip now : ℕ) (s : Manager R) → IsOut i s → IsOut i (register_node_ip num k ip now s)
  unfolding register_node_ip is_banned
  register_node_ip-IsOut i k ip now s h = elim (Option-cases (lookup k s.scores)) [
    | inl missing ↦
        rw (missing, register_node_ip)
          (initialize_node-IsOut i k ip now s (known_same i k s h.known missing) h)
    | inr (score, found) ↦ elim (Option-cases (lookup k s.metadata)) [
      | inl absent ↦ rw (found, absent, register_node_ip) h
      | inr (meta, there) ↦
          rw (found, there, register_node_ip)
            (register_ip-IsOut i k ip _ (record {
              known = h.known;
              banned = ground (
                arith,
                there,
                h.banned,
                lookup-insert i k (record meta { ip_address = ip }) s.metadata,
              );
            }))
    ]
  ]
