-- ===== src/Security/Lightning/Invoices.antt =====
-- Invoices that are paid once (lightningHardening.ts, gap 4). `sha` is the hash of the text that
-- is made of the nonce, the amount, the description and the time. The invoice's own text, made
-- for display from the first letters of the hash and of the nonce, stays out.
pub mod SingleUse
use abundance_protocol.Prelude.{
  ℕ, suc, ◌+◌, Bool, true, false, not, none, some, [], ◌∷◌, ltb, if◌then◌else◌, includes, include,
}
use abundance_protocol.Dict.{Dict, lookup, insert, erase}
use abundance_protocol.Security.Lightning.{InvoiceRecord, LightningHardening}

-- Returns the payment hash.
unfoldable pub generate_unique_invoice :
    (ℕ → ℕ → ℕ → ℕ → ℕ) → ℕ → ℕ → ℕ → ℕ → LightningHardening → ℕ × LightningHardening
generate_unique_invoice sha amount description nonce now s =
    let hash = sha nonce amount description now in
    let invoice : InvoiceRecord = record {
      payment_hash = hash;
      amount = amount;
      description = description;
      created_at = now;
      expires_at = now + 3600000;
      paid = false;
      nonce = nonce;
    } in
    (hash, record s { invoices = insert hash invoice s.invoices })

unfoldable pub mark_invoice_paid : ℕ → ℕ → LightningHardening → Bool × LightningHardening
mark_invoice_paid hash now s = elim (lookup hash s.invoices) [
  | none ↦ (false, s)
  | some invoice ↦
      if invoice.paid then (false, s) else if ltb invoice.expires_at now then (false, s) else (
        true,
        record s {
          invoices = insert hash (record invoice { paid = true }) s.invoices;
          paid_hashes = include hash s.paid_hashes;
        },
      )
]

unfoldable pub is_invoice_replayable : ℕ → LightningHardening → Bool
is_invoice_replayable hash s = not (includes hash s.paid_hashes)

-- The loop over the entries, which deletes from the map that it walks through.
unfoldable pub prune_loop : ℕ → Dict InvoiceRecord → Dict InvoiceRecord → ℕ × Dict InvoiceRecord
prune_loop now [] m = (0, m)
prune_loop now ((hash, invoice) ∷ xs) m =
    let stale = ltb (invoice.created_at + 86400000) now in
    let rest = prune_loop now xs (if stale then erase hash m else m) in
    (if stale then suc rest.0 else rest.0, rest.1)

-- Returns how many were removed.
unfoldable pub prune_expired_invoices : ℕ → LightningHardening → ℕ × LightningHardening
prune_expired_invoices now s =
    let r = prune_loop now s.invoices s.invoices in (r.0, record s { invoices = r.1 })
