-- ===== src/Security/Lightning/Invoices/SingleUse.antt =====
-- How often an invoice is marked as paid.
use abundance_protocol.Prelude.{
  ℕ, suc, ◌+◌, ◌≤◌, ◌≡◌, ◌≢◌, refl, Bool, true, false, none, some, List, [], ◌∷◌, ltb, ◌==◌,
  if◌then◌else◌, arith, inl, inr, ◌⊎◌, Option-cases, Bool-cases, ==_iff,
}
use abundance_protocol.Dict.{Dict, lookup, erase, lookup-insert, lookup-insert_ne, lookup-erase}
use abundance_protocol.Security.Lightning.{InvoiceRecord, LightningHardening}
use abundance_protocol.Security.Lightning.Invoices.{
  generate_unique_invoice, mark_invoice_paid, prune_loop, prune_expired_invoices,
}

pub data InvoiceCall : Type 0 where
  generates : ℕ → ℕ → ℕ → ℕ → InvoiceCall
  marks : ℕ → ℕ → InvoiceCall
  prunes : ℕ → InvoiceCall

module _ (sha : ℕ → ℕ → ℕ → ℕ → ℕ) where
  abbrev pub after : InvoiceCall → LightningHardening → LightningHardening
  after (generates amount description nonce now) s =
      (generate_unique_invoice sha amount description nonce now s).1
  after (marks hash now) s = (mark_invoice_paid hash now s).1
  after (prunes now) s = (prune_expired_invoices now s).1

  -- Whether a call is a marking of the hash that returns true.
  abbrev pub pays : ℕ → InvoiceCall → LightningHardening → Bool
  pays hash (generates _ _ _ _) s = false
  pays hash (marks k now) s = if k == hash then (mark_invoice_paid k now s).0 else false
  pays hash (prunes now) s = false

  -- How many calls mark the hash as paid.
  unfoldable pub payments : ℕ → List InvoiceCall → LightningHardening → ℕ
  payments hash [] s = 0
  payments hash (c ∷ cs) s =
      let rest = payments hash cs (after c s) in if pays hash c s then suc rest else rest

  -- No call generates an invoice of the hash.
  abbrev pub Leaves : ℕ → List InvoiceCall → Type 0
  Leaves hash [] = Unit
  Leaves hash (generates amount description nonce now ∷ cs) =
      (sha nonce amount description now ≢ hash) × Leaves hash cs
  Leaves hash (_ ∷ cs) = Leaves hash cs

  -- An invoice of the hash, if there is one, is paid.
  IsSpent : ℕ → LightningHardening → Type 0
  IsSpent hash s = (i : InvoiceRecord) → lookup hash s.invoices ≡ some i → i.paid ≡ true

  lookup-prune_loop :
      (hash now : ℕ) (xs m : Dict InvoiceRecord)
      → (lookup hash (prune_loop now xs m).1 ≡ none)
        ⊎ (lookup hash (prune_loop now xs m).1 ≡ lookup hash m)
  unfolding prune_loop
  lookup-prune_loop hash now [] m = inr refl
  lookup-prune_loop hash now ((k, i) ∷ xs) m =
      elim (Bool-cases (ltb (i.created_at + 86400000) now)) [
        | inl stale ↦
            ground (arith, stale, lookup-prune_loop hash now xs (erase k m), lookup-erase hash k m)
        | inr fresh ↦ ground (arith, fresh, lookup-prune_loop hash now xs m)
      ]

  mark_spends :
      (hash now : ℕ) (s : LightningHardening)
      → (mark_invoice_paid hash now s).0 ≡ true
      → IsSpent hash (mark_invoice_paid hash now s).1
  unfolding mark_invoice_paid IsSpent
  mark_spends hash now s h i e = elim (Option-cases (lookup hash s.invoices)) [
    | inl missing ↦ ground (arith, missing)
    | inr (j, found) ↦
        ground (arith, found, lookup-insert hash hash (record j { paid = true }) s.invoices)
  ]

  spent_refuses :
      (hash now : ℕ) (s : LightningHardening)
      → IsSpent hash s
      → (mark_invoice_paid hash now s).0 ≡ false
  unfolding mark_invoice_paid IsSpent
  spent_refuses hash now s h = elim (Option-cases (lookup hash s.invoices)) [
    | inl missing ↦ rw (missing, mark_invoice_paid)
    | inr (j, found) ↦ ground (arith, found, h j found)
  ]

  after-IsSpent :
      (c : InvoiceCall) (cs : List InvoiceCall) (hash : ℕ) (s : LightningHardening)
      → Leaves hash (c ∷ cs)
      → IsSpent hash s
      → IsSpent hash (after c s)
  unfolding IsSpent generate_unique_invoice mark_invoice_paid prune_expired_invoices
  after-IsSpent (generates amount description nonce now) cs hash s l h i e =
      h i (rw (lookup-insert_ne hash (sha nonce amount description now) _ s.invoices l.0) at e)
  after-IsSpent (marks k now) cs hash s l h i e = elim (Option-cases (lookup k s.invoices)) [
    | inl missing ↦ ground (arith, missing, h i)
    | inr (j, found) ↦
        ground (arith, found, h i, lookup-insert hash k (record j { paid = true }) s.invoices)
  ]
  after-IsSpent (prunes now) cs hash s l h i e =
      ground (arith, h i, lookup-prune_loop hash now s.invoices s.invoices)

  later :
      (c : InvoiceCall) (cs : List InvoiceCall) (hash : ℕ) → Leaves hash (c ∷ cs) → Leaves hash cs
  later (generates _ _ _ _) cs hash l = l.1
  later (marks _ _) cs hash l = l
  later (prunes _) cs hash l = l

  spent_pays :
      (c : InvoiceCall) (hash : ℕ) (s : LightningHardening) → IsSpent hash s → pays hash c s ≡ false
  spent_pays (generates _ _ _ _) hash s h = refl
  spent_pays (marks k now) hash s h = elim (Bool-cases (k == hash)) [
    | inl e ↦
        let same : k ≡ hash = (==_iff k hash).0 e in rw e (rw same (spent_refuses hash now s h))
    | inr e ↦ rw e
  ]
  spent_pays (prunes _) hash s h = refl

  spent_payments :
      (hash : ℕ) (cs : List InvoiceCall) (s : LightningHardening)
      → Leaves hash cs
      → IsSpent hash s
      → payments hash cs s ≡ 0
  unfolding payments
  spent_payments hash [] s l h = refl
  spent_payments hash (c ∷ cs) s l h =
      rw (spent_pays c hash s h)
        (spent_payments hash cs (after c s) (later c cs hash l) (after-IsSpent c cs hash s l h))

  pays-IsSpent :
      (c : InvoiceCall) (hash : ℕ) (s : LightningHardening)
      → pays hash c s ≡ true
      → IsSpent hash (after c s)
  pays-IsSpent (generates _ _ _ _) hash s h = cc
  pays-IsSpent (marks k now) hash s h = elim (Bool-cases (k == hash)) [
    | inl e ↦
        let same : k ≡ hash = (==_iff k hash).0 e in
        rw same (mark_spends hash now s (rw (e, same) at h))
    | inr e ↦ let h' : false ≡ true = rw e at h in cc
  ]
  pays-IsSpent (prunes _) hash s h = cc

  -- However invoices are generated, marked and pruned, a payment hash for which no invoice is generated
  -- on the way is marked as paid once at most.
  pub payments_once :
      (hash : ℕ) (cs : List InvoiceCall) (s : LightningHardening)
      → Leaves hash cs
      → payments hash cs s ≤ 1
  unfolding payments
  payments_once hash [] s l = ground arith
  payments_once hash (c ∷ cs) s l = elim (Bool-cases (pays hash c s)) [
    | inl e ↦ rw e (
        ground
          (arith, spent_payments hash cs (after c s) (later c cs hash l) (pays-IsSpent c hash s e)))
    | inr e ↦ rw e (payments_once hash cs (after c s) (later c cs hash l))
  ]
