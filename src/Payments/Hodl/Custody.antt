-- ===== src/Payments/Hodl/Custody.antt =====
-- The two maps of the store under any sequence of steps and events.
use abundance_protocol.Prelude.{
  ◌∙◌, ℕ, ◌≡◌, ◌≢◌, refl, Bool, true, false, Option, none, some, inl, inr, List, [], ◌∷◌, arith,
  if◌then◌else◌, Option-cases,
}
use abundance_protocol.Dict.{Dict, lookup, has, Every, Every-insert, lookup-insert, lookup-erase}
use abundance_protocol.Registry.{update_key, update_key-Every, update_key_missing, update_key_found}
use abundance_protocol.Payments.Hodl.{
  HodlStatus, HodlInvoice, HodlStore, InvoiceUpdate, set, update_status, remove,
  create_hodl_invoice, on_update, settle_hodl_invoice, cancel_hodl_invoice, paid, settled,
  cancelled,
}

pub data Step : Type 0 where
  creates : Bool → ℕ → ℕ → ℕ → Option ℕ → ℕ → Step
  updates : ℕ → InvoiceUpdate → Step
  settles : Bool → ℕ → Bool → Step
  cancels : Bool → ℕ → Bool → Step

module _ (sha : ℕ → ℕ) where
  unfoldable pub advance : Step → HodlStore → HodlStore
  advance (creates configured preimage sats job answer now) s =
      (create_hodl_invoice sha configured preimage sats job answer now s).1
  advance (updates hash inv) s = (on_update hash inv s).1
  advance (settles configured hash ok) s = (settle_hodl_invoice configured hash ok s).1
  advance (cancels configured hash ok) s = (cancel_hodl_invoice configured hash ok s).1

  unfoldable pub run : List Step → HodlStore → HodlStore
  run [] s = s
  run (x ∷ xs) s = run xs (advance x s)

  -- An invoice is stored under its hash, the preimage beside it hashes to it, and each has the other.
  pub record IsPaired (s : HodlStore) : Type 0 where
    pub keyed : Every (λ hash h. h.payment_hash ≡ hash) s.pending_hodls
    pub hashed : Every (λ hash p. sha p ≡ hash) s.preimages
    pub paired : (hash : ℕ) → has hash s.pending_hodls ≡ has hash s.preimages

  has-update :
      (k j : ℕ) (status : HodlStatus) (m : Dict HodlInvoice)
      → has j (update_key k (λ h. record h { status = status }) m) ≡ has j m
  has-update k j status m = elim (Option-cases (lookup k m)) [
    | inl e ↦ rw (update_key_missing k (λ h. record h { status = status }) m e) refl
    | inr (v, e) ↦
        rw (update_key_found k (λ h. record h { status = status }) m e)
          (ground (arith, e, lookup-insert j k (record v { status = status }) m))
  ]

  set-IsPaired :
      (h : HodlInvoice) (p : ℕ) (s : HodlStore)
      → h.payment_hash ≡ sha p
      → IsPaired s
      → IsPaired (set (sha p) h p s)
  unfolding set
  set-IsPaired h p s e x = record {
    keyed = Every-insert (sha p) h s.pending_hodls x.keyed e;
    hashed = Every-insert (sha p) p s.preimages x.hashed refl;
    paired = λ k. ground (
      arith,
      x.paired k,
      lookup-insert k (sha p) h s.pending_hodls,
      lookup-insert k (sha p) p s.preimages,
    );
  }

  update-IsPaired :
      (hash : ℕ) (status : HodlStatus) (s : HodlStore)
      → IsPaired s
      → IsPaired (update_status hash status s)
  unfolding update_status
  update-IsPaired hash status s x = record {
    keyed = update_key-Every hash _ s.pending_hodls x.keyed (λ v e. e);
    hashed = x.hashed;
    paired = λ k. has-update hash k status s.pending_hodls ∙ x.paired k;
  }

  remove-IsPaired : (hash : ℕ) (s : HodlStore) → IsPaired s → IsPaired (remove hash s)
  unfolding remove
  remove-IsPaired hash s x = record {
    keyed = λ k v e. ground (arith, lookup-erase k hash s.pending_hodls, x.keyed k v);
    hashed = λ k v e. ground (arith, lookup-erase k hash s.preimages, x.hashed k v);
    paired = λ k.
        ground
          (arith, x.paired k, lookup-erase k hash s.pending_hodls, lookup-erase k hash s.preimages);
  }

  if-IsPaired :
      (c : Bool) (a b : HodlStore) → IsPaired a → IsPaired b → IsPaired (if c then a else b)
  if-IsPaired true a b x y = x
  if-IsPaired false a b x y = y

  settle-IsPaired :
      (hash : ℕ) (ok : Bool) (s : HodlStore)
      → IsPaired s
      → IsPaired (settle_hodl_invoice true hash ok s).1
  unfolding settle_hodl_invoice
  settle-IsPaired hash false s h = elim (Option-cases (lookup hash s.preimages)) [
    | inl e ↦ rw (e, settle_hodl_invoice) h
    | inr (p, e) ↦ rw (e, settle_hodl_invoice) h
  ]
  settle-IsPaired hash true s h = elim (Option-cases (lookup hash s.preimages)) [
    | inl e ↦ rw (e, settle_hodl_invoice) h
    | inr (p, e) ↦ rw (e, settle_hodl_invoice) (update-IsPaired hash settled s h)
  ]

  advance-IsPaired : (x : Step) (s : HodlStore) → IsPaired s → IsPaired (advance x s)
  unfolding advance create_hodl_invoice on_update settle_hodl_invoice cancel_hodl_invoice
  advance-IsPaired (creates false p sats job answer now) s h = h
  advance-IsPaired (creates true p sats job none now) s h = h
  advance-IsPaired (creates true p sats job (some request) now) s h = set-IsPaired _ p s refl h
  advance-IsPaired (updates hash inv) s h =
      let s' = if inv.is_held then update_status hash paid s else s in
      let h' =
        if-IsPaired inv.is_held (update_status hash paid s) s (update-IsPaired hash paid s h) h in
      if-IsPaired inv.is_canceled (update_status hash cancelled s') s'
        (update-IsPaired hash cancelled s' h') h'
  advance-IsPaired (settles false hash ok) s h = h
  advance-IsPaired (settles true hash ok) s h = settle-IsPaired hash ok s h
  advance-IsPaired (cancels false hash ok) s h = h
  advance-IsPaired (cancels true hash false) s h = h
  advance-IsPaired (cancels true hash true) s h =
      remove-IsPaired hash (update_status hash cancelled s) (update-IsPaired hash cancelled s h)

  -- Whatever is created, settled and cancelled and whatever the lightning node reports, every invoice of
  -- the store stands under its payment hash, every preimage hashes to the hash it stands under, and
  -- the two maps have the same hashes, if that was so before.
  pub run-IsPaired : (xs : List Step) (s : HodlStore) → IsPaired s → IsPaired (run xs s)
  unfolding run
  run-IsPaired [] s h = h
  run-IsPaired (x ∷ xs) s h = run-IsPaired xs (advance x s) (advance-IsPaired x s h)

  -- A settlement returns true only with a preimage in hand that hashes to the payment hash.
  settle_hodl_invoice_reveals :
      (configured : Bool) (hash : ℕ) (ok : Bool) (s : HodlStore)
      → IsPaired s
      → (settle_hodl_invoice configured hash ok s).0 ≡ true
      → (p : ℕ) × (lookup hash s.preimages ≡ some p) × (sha p ≡ hash)
  unfolding settle_hodl_invoice
  settle_hodl_invoice_reveals false hash ok s h e = absurd (ground arith)
  settle_hodl_invoice_reveals true hash ok s h e = elim (Option-cases (lookup hash s.preimages)) [
    | inl missing ↦ absurd (ground (arith, missing))
    | inr (p, found) ↦ (p, found, h.hashed hash p found)
  ]

  -- Steps that do not create an invoice of a hash.
  abbrev pub Avoids : ℕ → List Step → Type 0
  Avoids hash [] = Unit
  Avoids hash (creates _ p _ _ _ _ ∷ xs) = (sha p ≢ hash) × Avoids hash xs
  Avoids hash (_ ∷ xs) = Avoids hash xs

  advance-missing :
      (x : Step) (xs : List Step) (hash : ℕ) (s : HodlStore)
      → Avoids hash (x ∷ xs)
      → lookup hash s.preimages ≡ none
      → lookup hash (advance x s).preimages ≡ none
  unfolding advance create_hodl_invoice on_update settle_hodl_invoice cancel_hodl_invoice set
      update_status remove
  advance-missing (creates configured p sats job answer now) xs hash s av e =
      ground (arith, lookup-insert hash (sha p) p s.preimages, av.0)
  advance-missing (updates k inv) xs hash s av e = ground arith
  advance-missing (settles configured k ok) xs hash s av e =
      ground (arith, Option-cases (lookup k s.preimages))
  advance-missing (cancels configured k ok) xs hash s av e =
      ground (arith, lookup-erase hash k s.preimages)

  tail : (x : Step) (xs : List Step) (hash : ℕ) → Avoids hash (x ∷ xs) → Avoids hash xs
  tail (creates _ p _ _ _ _) xs hash av = av.1
  tail (updates _ _) xs hash av = av
  tail (settles _ _ _) xs hash av = av
  tail (cancels _ _ _) xs hash av = av

  run-missing :
      (xs : List Step) (hash : ℕ) (s : HodlStore)
      → Avoids hash xs
      → lookup hash s.preimages ≡ none
      → lookup hash (run xs s).preimages ≡ none
  unfolding run
  run-missing [] hash s av e = e
  run-missing (x ∷ xs) hash s av e =
      run-missing xs hash (advance x s) (tail x xs hash av) (advance-missing x xs hash s av e)

  -- After an invoice was cancelled, no settlement of its hash succeeds, whatever happens in between
  -- but the creation of an invoice of the same hash.
  pub cancel_then_settle :
      (xs : List Step) (configured ok : Bool) (hash : ℕ) (s : HodlStore)
      → Avoids hash xs
      → (settle_hodl_invoice configured hash ok (run xs (cancel_hodl_invoice true hash true s).1)).0
        ≡ false
  unfolding settle_hodl_invoice cancel_hodl_invoice remove update_status
  cancel_then_settle xs configured ok hash s av =
      let gone =
        run-missing xs hash (cancel_hodl_invoice true hash true s).1 av
          (ground (arith, lookup-erase hash hash s.preimages)) in
      ground (arith, gone)
