-- ===== src/Security/Lightning/Treasury/Signed.antt =====
-- Which signatures stand behind a transaction that is sent.
use mathlib.Core.Path.{subst}
use abundance_protocol.Prelude.{
  ℕ, ◌≤◌, ◌≡◌, refl, true, false, ◌||◌, none, some, List, [], ◌∷◌, ◌==◌, length, includes, All, ◌≢◌,
  ◌∙◌, ap, arith, inl, inr, Option-cases, Bool-cases, ==_iff,
}
use abundance_protocol.Dict.{
  Dict, lookup, insert, Every, lookup-insert_ne, lookup-erase, Every-insert,
}
use abundance_protocol.Registry.{at_key-Every, at_key_missing, at_key_others}
use abundance_protocol.Result.{ok, err}
use abundance_protocol.Security.Lightning.{Text, PendingTransaction, LightningHardening}
use abundance_protocol.Security.Lightning.Treasury.{
  not_found, invalid_signature, propose_spend, verify_signature, sign_on, add_signature,
  execute_begin, execute_end,
}

abbrev pub keys : Dict Text → List ℕ
keys [] = []
keys ((k, _) ∷ m) = k ∷ keys m

abbrev pub AreDistinct : List ℕ → Type 0
AreDistinct [] = Unit
AreDistinct (k ∷ ks) = (includes k ks ≡ false) × AreDistinct ks

-- Each signature of the map passes the check.
abbrev pub AllValid : ℕ → Dict Text → Type 0
AllValid tx [] = Unit
AllValid tx ((signer, signature) ∷ m) =
    (verify_signature tx signer signature ≡ true) × AllValid tx m

-- A transaction's signatures: one for each signer, all of them valid.
abbrev pub IsSigned : PendingTransaction → Type 0
IsSigned tx = AreDistinct (keys tx.signatures) × AllValid tx.unsigned_tx tx.signatures

abbrev pub AreSigned : LightningHardening → Type 0
AreSigned s = Every (λ _ tx. IsSigned tx) s.pending_transactions

includes-keys-insert :
    (j k : ℕ) (v : Text) (m : Dict Text)
    → includes j (keys (insert k v m)) ≡ ((k == j) || includes j (keys m))
includes-keys-insert j k v [] = ground arith
includes-keys-insert j k v ((i, w) ∷ m) = ground (arith, includes-keys-insert j k v m)

keys-insert-AreDistinct :
    (k : ℕ) (v : Text) (m : Dict Text) → AreDistinct (keys m) → AreDistinct (keys (insert k v m))
keys-insert-AreDistinct k v [] h = (refl, tt)
keys-insert-AreDistinct k v ((i, w) ∷ m) h = elim (Bool-cases (i == k)) [
  | inl same ↦ rw same h
  | inr other ↦
      rw other (
        ground (arith, other, h.0, includes-keys-insert i k v m),
        keys-insert-AreDistinct k v m h.1,
      )
]

insert-AllValid :
    (tx k : ℕ) (v : Text) (m : Dict Text)
    → verify_signature tx k v ≡ true
    → AllValid tx m
    → AllValid tx (insert k v m)
insert-AllValid tx k v [] e h = (e, tt)
insert-AllValid tx k v ((i, w) ∷ m) e h = elim (Bool-cases (i == k)) [
  | inl same ↦ rw same (rw ((==_iff i k).0 same) e, h.1)
  | inr other ↦ rw other (h.0, insert-AllValid tx k v m e h.1)
]

pub data TreasuryCall : Type 0 where
  proposes : ℕ → ℕ → ℕ → ℕ → ℕ → TreasuryCall
  signs : ℕ → ℕ → Text → TreasuryCall
  -- the end of a call of executeIfThresholdMet, after its broadcast
  ends : ℕ → TreasuryCall

sign_on-IsSigned :
    (signer : ℕ) (signature : Text) (tx tx' : PendingTransaction) (u : Unit {0})
    → IsSigned tx
    → sign_on signer signature tx ≡ ok (u, tx')
    → IsSigned tx'
unfolding sign_on
sign_on-IsSigned signer signature tx tx' u h e =
    let signed = record tx { signatures = insert signer signature tx.signatures } in
    elim (Bool-cases (verify_signature tx.unsigned_tx signer signature)) [
      | inl good ↦
          let r : ok (tt, signed) ≡ ok (u, tx') = rw (good, sign_on) at e in
          let same : signed ≡ tx' = cc in
          subst IsSigned same (
            keys-insert-AreDistinct signer signature tx.signatures h.0,
            insert-AllValid tx.unsigned_tx signer signature tx.signatures good h.1,
          )
      | inr bad ↦ let r : err invalid_signature ≡ ok (u, tx') = rw (bad, sign_on) at e in cc
    ]

module _ (unsigned : ℕ → ℕ → ℕ → ℕ) where
  abbrev pub after : TreasuryCall → LightningHardening → LightningHardening
  after (proposes amount destination proposer tx_id now) s =
      (propose_spend unsigned amount destination proposer tx_id now s).1
  after (signs tx_id signer signature) s = (add_signature tx_id signer signature s).1
  after (ends tx_id) s = execute_end tx_id s

  unfoldable pub run : List TreasuryCall → LightningHardening → LightningHardening
  run [] s = s
  run (c ∷ cs) s = run cs (after c s)

  after-AreSigned :
      (c : TreasuryCall) (s : LightningHardening) → AreSigned s → AreSigned (after c s)
  unfolding propose_spend add_signature execute_end
  after-AreSigned (proposes amount destination proposer tx_id now) s h =
      Every-insert tx_id _ s.pending_transactions h (tt, tt)
  after-AreSigned (signs tx_id signer signature) s h =
      at_key-Every not_found tx_id (sign_on signer signature) s.pending_transactions h
        (λ tx tx' u. sign_on-IsSigned signer signature tx tx' u)
  after-AreSigned (ends tx_id) s h =
      λ k v e. h k v (ground (arith, lookup-erase k tx_id s.pending_transactions))

  run-AreSigned :
      (cs : List TreasuryCall) (s : LightningHardening) → AreSigned s → AreSigned (run cs s)
  unfolding run
  run-AreSigned [] s h = h
  run-AreSigned (c ∷ cs) s h = run-AreSigned cs (after c s) (after-AreSigned c s h)

  -- The call does not propose a transaction under the identifier.
  abbrev pub Keeps : ℕ → TreasuryCall → Type 0
  Keeps tx_id (proposes amount destination proposer id now) = id ≢ tx_id
  Keeps tx_id _ = Unit

  after_missing :
      (tx_id : ℕ) (c : TreasuryCall) (s : LightningHardening)
      → Keeps tx_id c
      → lookup tx_id s.pending_transactions ≡ none
      → lookup tx_id (after c s).pending_transactions ≡ none
  unfolding propose_spend add_signature execute_end
  after_missing tx_id (proposes amount destination proposer id now) s k h =
      lookup-insert_ne tx_id id _ s.pending_transactions k ∙ h
  after_missing tx_id (signs id signer signature) s k h = elim (Bool-cases (id == tx_id)) [
    | inl same ↦
        let e : id ≡ tx_id = ground arith in
        let at_id : lookup id s.pending_transactions ≡ none = rw e h in
        rw (at_key_missing not_found id (sign_on signer signature) s.pending_transactions at_id) h
    | inr other ↦
        at_key_others not_found id (sign_on signer signature) s.pending_transactions tx_id
          (ground arith)
        ∙ h
  ]
  after_missing tx_id (ends id) s k h = ground (arith, lookup-erase tx_id id s.pending_transactions)

  run_missing :
      (tx_id : ℕ) (cs : List TreasuryCall) (s : LightningHardening)
      → All (Keeps tx_id) cs
      → lookup tx_id s.pending_transactions ≡ none
      → lookup tx_id (run cs s).pending_transactions ≡ none
  unfolding run
  run_missing tx_id [] s k h = h
  run_missing tx_id (c ∷ cs) s k h =
      run_missing tx_id cs (after c s) k.1 (after_missing tx_id c s k.0 h)

  missing_refused :
      (s : LightningHardening) (tx_id : ℕ)
      → lookup tx_id s.pending_transactions ≡ none
      → execute_begin tx_id s ≡ err not_found
  unfolding execute_begin
  missing_refused s tx_id e = rw (e, execute_begin) refl

  -- What a call that goes on to its broadcast has found.
  sent :
      (s : LightningHardening) (tx_id : ℕ) (tx : PendingTransaction)
      → execute_begin tx_id s ≡ ok (some tx)
      → (lookup tx_id s.pending_transactions ≡ some tx) × (3 ≤ length tx.signatures)
  unfolding execute_begin
  sent s tx_id tx e = elim (Option-cases (lookup tx_id s.pending_transactions)) [
    | inl missing ↦ absurd (ground (arith, missing))
    | inr (t, found) ↦
        let same : t ≡ tx = ground (arith, found) in (found ∙ ap some same, ground (arith, found))
  ]

  -- A call of executeIfThresholdMet that goes on to its broadcast, after any sequence of proposals, of signatures and
  -- of ends of other such calls, so however these calls interleave, sends a transaction that is pending, and
  -- at least three signers, all different, have signed that very transaction, with a signature each that passes
  -- the check; if the pending transactions at the start are signed so, as where there are none. Once the call
  -- has ended, a call for the same identifier that begins before it is proposed again throws.
  pub execute-IsSigned :
      (cs ds : List TreasuryCall) (s : LightningHardening) (tx_id : ℕ) (tx : PendingTransaction)
      → AreSigned s
      → execute_begin tx_id (run cs s) ≡ ok (some tx)
      → All (Keeps tx_id) ds
      → (lookup tx_id (run cs s).pending_transactions ≡ some tx)
        × (3 ≤ length tx.signatures)
        × IsSigned tx
        × (execute_begin tx_id (run ds (execute_end tx_id (run cs s))) ≡ err not_found)
  unfolding execute_end
  execute-IsSigned cs ds s tx_id tx h e keeps =
      let r = run cs s in
      let (found, enough) = sent r tx_id tx e in
      let gone : lookup tx_id (execute_end tx_id r).pending_transactions ≡ none =
        ground (arith, lookup-erase tx_id tx_id r.pending_transactions) in
      (
        found,
        enough,
        run-AreSigned cs s h tx_id tx found,
        missing_refused (run ds (execute_end tx_id r)) tx_id
            (run_missing tx_id ds (execute_end tx_id r) keeps gone),
      )
