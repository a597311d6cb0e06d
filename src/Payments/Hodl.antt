-- ===== src/Payments/Hodl.antt =====
-- Hold invoices (src/payments/hodl: store.ts, crypto.ts, invoice.ts, route.ts, settle.ts, service.ts).
-- `sha` is sha256; the preimage is random, and what the lightning node answers to a call is an
-- argument: `none` or false where ln-service throws. `configured` is whether there is a node.
pub mod Custody
use abundance_protocol.Prelude.{
  ℕ, Bool, true, false, Option, none, some, List, [], ◌∷◌, ◌==◌, ◌||◌, if◌then◌else◌, select,
}
use abundance_protocol.Dict.{Dict, lookup, insert, erase, values}
use abundance_protocol.Registry.{update_key}

pub data HodlStatus : Type 0 where
  pending paid settled cancelled : HodlStatus

pub record HodlInvoice : Type 0 where
  pub payment_hash : ℕ
  pub invoice : ℕ
  pub amount_sats : ℕ
  pub job_id : ℕ
  pub status : HodlStatus
  pub created_at : ℕ

pub record HodlStore : Type 0 where
  pub pending_hodls : Dict HodlInvoice
  pub preimages : Dict ℕ

-- hodlStore.set
unfoldable pub set : ℕ → HodlInvoice → ℕ → HodlStore → HodlStore
set hash h preimage s = record {
  pending_hodls = insert hash h s.pending_hodls;
  preimages = insert hash preimage s.preimages;
}

unfoldable pub update_status : ℕ → HodlStatus → HodlStore → HodlStore
update_status hash status s = record s {
  pending_hodls = update_key hash (λ h. record h { status = status }) s.pending_hodls;
}

-- hodlStore.delete
unfoldable pub remove : ℕ → HodlStore → HodlStore
remove hash s = record {
  pending_hodls = erase hash s.pending_hodls;
  preimages = erase hash s.preimages;
}

abbrev is_pending : HodlStatus → Bool
is_pending pending = true
is_pending paid = true
is_pending _ = false

unfoldable pub list_pending : HodlStore → List HodlInvoice
list_pending s = select (λ h. is_pending h.status) (values s.pending_hodls)

unfoldable pub find_in : ℕ → Dict HodlInvoice → Option ℕ
find_in invoice [] = none
find_in invoice ((hash, h) ∷ m) =
    let rest = find_in invoice m in if h.invoice == invoice then some hash else rest

unfoldable pub find_by_invoice : ℕ → HodlStore → Option ℕ
find_by_invoice invoice s = find_in invoice s.pending_hodls

-- Returns the payment's hash and the invoice.
unfoldable pub create_hodl_invoice :
    (ℕ → ℕ) → Bool → ℕ → ℕ → ℕ → Option ℕ → ℕ → HodlStore → Option (ℕ × ℕ) × HodlStore
create_hodl_invoice sha false preimage sats job answer now s = (none, s)
create_hodl_invoice sha true preimage sats job none now s = (none, s)
create_hodl_invoice sha true preimage sats job (some request) now s =
    let h : HodlInvoice = record {
      payment_hash = sha preimage;
      invoice = request;
      amount_sats = sats;
      job_id = job;
      status = pending;
      created_at = now;
    } in
    (some (sha preimage, request), set (sha preimage) h preimage s)

-- An event of the subscription that routePayment makes, and what the promise resolves to.
pub record InvoiceUpdate : Type 0 where
  pub is_held : Bool
  pub is_confirmed : Bool
  pub is_canceled : Bool
  pub secret : ℕ

pub record RoutePaymentResult : Type 0 where
  pub paid : Bool
  pub payment_hash : Option ℕ
  pub preimage : Option ℕ

unfoldable pub on_update : ℕ → InvoiceUpdate → HodlStore → Option RoutePaymentResult × HodlStore
on_update hash inv s =
    let s' = if inv.is_held then update_status hash paid s else s in
    let s'' = if inv.is_canceled then update_status hash cancelled s' else s' in
    (
      if inv.is_confirmed
          then some (record { paid = true; payment_hash = some hash; preimage = some inv.secret })
          else if inv.is_canceled
          then some (record { paid = false; payment_hash = some hash; preimage = none })
          else none,
      s'',
    )

-- `settles` is whether the node accepts the preimage. A preimage is not the empty string.
unfoldable pub settle_hodl_invoice : Bool → ℕ → Bool → HodlStore → Bool × HodlStore
settle_hodl_invoice false hash settles s = (false, s)
settle_hodl_invoice true hash settles s = elim (lookup hash s.preimages) [
  | none ↦ (false, s)
  | some preimage ↦ if settles then (true, update_status hash settled s) else (false, s)
]

unfoldable pub cancel_hodl_invoice : Bool → ℕ → Bool → HodlStore → Bool × HodlStore
cancel_hodl_invoice configured hash cancels s =
    if configured
    then (if cancels then (true, remove hash (update_status hash cancelled s)) else (false, s))
    else (false, s)

unfoldable pub get_hodl_status : ℕ → HodlStore → Option HodlInvoice
get_hodl_status hash s = lookup hash s.pending_hodls
