-- ===== src/Reputation/Bans/Lasting.antt =====
-- How long a ban lasts.
use abundance_protocol.Prelude.{
  ℕ, ◌≡◌, refl, false, none, List, [], ◌∷◌, arith, inl, inr, Option-cases,
}
use abundance_protocol.Dict.{lookup}
use abundance_protocol.Reputation.{Fractions, Manager}
use abundance_protocol.Reputation.Stakes.{update_stake, update_reliability, stake_node}
use abundance_protocol.Reputation.Tasks.{record_task_completion, record_task_failure}
use abundance_protocol.Reputation.Slashing.{SlashForm, is_banned, slash_known, slash}
use abundance_protocol.Reputation.Queries.{get_score, is_eligible, get_reputation}
use abundance_protocol.Reputation.Bans.{
  Call, initializes, registers, completes, fails, slashes, stakes, adds_stake, relies, decays, asks,
  IsOut, Spares, perform, run,
}
use abundance_protocol.Reputation.Bans.Entry.{
  initialize_node-IsOut, ensure_known, ensure-IsOut, register_node_ip-IsOut,
}
use abundance_protocol.Reputation.Bans.Changes.{
  change_score-IsOut, on_node-IsOut, slash-IsOut, decay_scores-IsOut,
}

module _ {R : Type 0} (num : Fractions R) where
  perform-IsOut :
      (i : ℕ) (c : Call R) (cs : List (Call R)) (s : Manager R)
      → Spares num i (c ∷ cs)
      → IsOut i s
      → IsOut i (perform num c s)
  unfolding perform record_task_completion record_task_failure update_stake stake_node
      update_reliability get_reputation
  perform-IsOut i (initializes k ip now) cs s spares h =
      initialize_node-IsOut num i k ip now s spares.0 h
  perform-IsOut i (registers k ip now) cs s spares h = register_node_ip-IsOut num i k ip now s h
  perform-IsOut i (completes k quality time type now) cs s spares h =
      on_node-IsOut num i k now _ s h
  perform-IsOut i (fails k reason now) cs s spares h = on_node-IsOut num i k now _ s h
  perform-IsOut i (slashes k form reason now) cs s spares h =
      slash-IsOut num i k form reason now s h
  perform-IsOut i (stakes k amount now) cs s spares h = change_score-IsOut num i k now _ s h
  perform-IsOut i (adds_stake k amount now) cs s spares h = change_score-IsOut num i k now _ s h
  perform-IsOut i (relies k uptime now) cs s spares h = change_score-IsOut num i k now _ s h
  perform-IsOut i (decays now) cs s spares h = decay_scores-IsOut num i now s h
  perform-IsOut i (asks k now) cs s spares h = ensure-IsOut num i k now s h

  rest : (i : ℕ) (c : Call R) (cs : List (Call R)) → Spares num i (c ∷ cs) → Spares num i cs
  rest i (initializes _ _ _) cs spares = spares.1
  rest i (registers _ _ _) cs spares = spares
  rest i (completes _ _ _ _ _) cs spares = spares
  rest i (fails _ _ _) cs spares = spares
  rest i (slashes _ _ _ _) cs spares = spares
  rest i (stakes _ _ _) cs spares = spares
  rest i (adds_stake _ _ _) cs spares = spares
  rest i (relies _ _ _) cs spares = spares
  rest i (decays _) cs spares = spares
  rest i (asks _ _) cs spares = spares

  run-IsOut :
      (i : ℕ) (cs : List (Call R)) (s : Manager R)
      → Spares num i cs
      → IsOut i s
      → IsOut i (run num cs s)
  unfolding run
  run-IsOut i [] s spares h = h
  run-IsOut i (c ∷ cs) s spares h =
      run-IsOut i cs (perform num c s) (rest i c cs spares) (perform-IsOut i c cs s spares h)

  -- What a banned node gets.
  excluded :
      (i : ℕ) (s : Manager R)
      → IsOut i s
      → (get_score i s ≡ none)
        × ((least : R) → is_eligible num i least s ≡ false)
        × ((form : SlashForm R) (reason now : ℕ) → slash num i form reason now s ≡ (false, s))
  unfolding get_score is_eligible is_banned slash slash_known
  excluded i s h = elim (Option-cases (lookup i s.scores)) [
    | inl missing ↦ absurd (ground (arith, h.known, missing))
    | inr (score, found) ↦ (
      ground (arith, found, h.banned, Option-cases (lookup i s.metadata)),
      λ least. ground (arith, found, h.banned, Option-cases (lookup i s.metadata)),
      λ form reason now. refused form reason now,
    )
  ]
    where
      refused : (form : SlashForm R) (reason now : ℕ) → slash num i form reason now s ≡ (false, s)
      refused form reason now = elim (Option-cases (lookup i s.scores)) [
        | inl missing ↦ absurd (ground (arith, h.known, missing))
        | inr (score, found) ↦
            rw (ensure_known num i now s found) (rw (found, h.banned, slash_known) refl)
      ]

  -- A ban is permanent: whatever is called, in whatever order and for whatever nodes, but an explicit
  -- initialisation of the node itself, getScore shows no score of a banned node, the node is eligible for
  -- nothing, and a slash of it changes nothing: neither its stake nor its count of slashes nor anything else.
  pub ban_lasts :
      (i : ℕ) (cs : List (Call R)) (s : Manager R)
      → Spares num i cs
      → IsOut i s
      → (get_score i (run num cs s) ≡ none)
        × ((least : R) → is_eligible num i least (run num cs s) ≡ false)
        × ((form : SlashForm R) (reason now : ℕ)
            → slash num i form reason now (run num cs s) ≡ (false, run num cs s))
  ban_lasts i cs s spares h = excluded i (run num cs s) (run-IsOut i cs s spares h)
