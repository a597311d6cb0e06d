-- ===== src/Consensus/Sequence.antt =====
-- The DAG mempool: submissions and sequences.
use abundance_protocol.Registry.{update_key_found}
use abundance_protocol.Prelude.{
  ℕ, ◌+◌, ◌≡◌, refl, none, some, inl, inr, List, [], ◌∷◌, ◌++◌, arith, count, count-append,
  Option-cases,
}
use abundance_protocol.Dict.{Dict, lookup, insert, has, lookup-insert_self}
use abundance_protocol.Consensus.{Engine, submit_proof, concat_batches, bullshark_sequence}

-- Proofs in the order of submission, each with the worker's name that was drawn for it.
unfoldable pub submit_all : List (ℕ × ℕ) → Engine → Engine
submit_all [] s = s
submit_all ((worker, task) ∷ ps) s = submit_all ps (submit_proof worker task s)

unfoldable pub tasks : List (ℕ × ℕ) → List ℕ
tasks [] = []
tasks ((_, task) ∷ ps) = task ∷ tasks ps

count-push :
    (t worker task : ℕ) (m : Dict (List ℕ)) {b : List ℕ}
    → lookup worker m ≡ some b
    → count t (concat_batches (insert worker (b ++ task ∷ []) m))
      ≡ count t (concat_batches m) + count t (task ∷ [])
unfolding concat_batches
count-push t worker task [] h = absurd (ground arith)
count-push t worker task ((j, c) ∷ m) {b} h = ground (
  arith,
  count-push t worker task m {b = b},
  count-append t c (concat_batches m),
  count-append t b (task ∷ []),
  count-append t (b ++ task ∷ []) (concat_batches m),
  count-append t c (concat_batches (insert worker (b ++ task ∷ []) m)),
)

count-open :
    (t worker : ℕ) (m : Dict (List ℕ))
    → lookup worker m ≡ none
    → count t (concat_batches (insert worker [] m)) ≡ count t (concat_batches m)
unfolding concat_batches
count-open t worker [] h = refl
count-open t worker ((j, c) ∷ m) h = ground (
  arith,
  count-open t worker m,
  count-append t c (concat_batches m),
  count-append t c (concat_batches (insert worker [] m)),
)

count-submit :
    (t worker task : ℕ) (s : Engine)
    → count t (concat_batches (submit_proof worker task s).dag_mempool)
      ≡ count t (concat_batches s.dag_mempool) + count t (task ∷ [])
unfolding submit_proof
count-submit t worker task s = elim (Option-cases (lookup worker s.dag_mempool)) [
  | inl fresh ↦
      let m = insert worker [] s.dag_mempool in
      let opened : lookup worker m ≡ some [] = lookup-insert_self worker [] s.dag_mempool in
      rw (fresh, has)
        (rw (update_key_found worker (λ b. b ++ task ∷ []) m opened) (
          omega
            (arith, count-push t worker task m opened, count-open t worker s.dag_mempool fresh)))
  | inr (b, found) ↦
      rw (found, has)
        (rw (update_key_found worker (λ b. b ++ task ∷ []) s.dag_mempool found)
          (count-push t worker task s.dag_mempool found))
]

count-submit_all :
    (t : ℕ) (ps : List (ℕ × ℕ)) (s : Engine)
    → count t (concat_batches (submit_all ps s).dag_mempool)
      ≡ count t (concat_batches s.dag_mempool) + count t (tasks ps)
unfolding submit_all tasks
count-submit_all t [] s = omega arith
count-submit_all t ((w, u) ∷ ps) s =
    omega (arith, count-submit_all t ps (submit_proof w u s), count-submit t w u s)

-- After any submissions, in any order and under any workers' names, one sequence returns each task
-- as often as it was submitted since the last one, and leaves nothing for the next.
pub bullshark_sequence_complete :
    (t : ℕ) (ps : List (ℕ × ℕ)) (s : Engine)
    → let (before, s0) = bullshark_sequence s in
      let (order, s1) = bullshark_sequence (submit_all ps s0) in
      (count t order ≡ count t (tasks ps)) × ((bullshark_sequence s1).0 ≡ [])
unfolding bullshark_sequence
bullshark_sequence_complete t ps s =
    (omega (arith, count-submit_all t ps (bullshark_sequence s).1), unfold concat_batches in refl)
