-- ===== src/Payments/Htlc/Settlement.antt =====
-- When a contract is settled.
use abundance_protocol.Prelude.{ℕ, ◌≡◌, ◌≢◌, refl, arith, some}
use abundance_protocol.Dict.{Dict, lookup, insert, lookup-insert_self}
use abundance_protocol.Registry.{at_key_found}
use abundance_protocol.Result.{ok, err}
use abundance_protocol.Payments.Htlc.{
  HtlcContract, not_found, hash_mismatch, settled, cancelled, new_contract, create, settle_on,
  settle, cancel_on, cancel, get_contract,
}

module _ (hex digest : ℕ → ℕ) where
  settle_on_match :
      (p : ℕ) (c : HtlcContract)
      → digest p ≡ c.payment_hash
      → settle_on hex digest p c ≡ ok (tt, record c { status = settled })
  unfolding settle_on
  settle_on_match p c e = ground arith

  settle_on_mismatch :
      (p : ℕ) (c : HtlcContract)
      → digest p ≢ c.payment_hash
      → settle_on hex digest p c ≡ err hash_mismatch
  unfolding settle_on
  settle_on_mismatch p c ne = ground arith

  -- The call for a contract that is there, with its preimage.
  settle_match :
      (i p : ℕ) (m : Dict HtlcContract) {c : HtlcContract}
      → lookup i m ≡ some c
      → digest p ≡ c.payment_hash
      → settle hex digest i p m ≡ (ok tt, insert i (record c { status = settled }) m)
  unfolding settle
  settle_match i p m {c} found e =
      rw (at_key_found not_found i (settle_on hex digest p) m found, settle_on_match p c e)

  -- Settling undoes nothing but the wait: a contract that was just made is settled by the preimage that
  -- its creation returned, and is then the contract that was made, with the status 'settled'.
  pub settle-create :
      (secret sats expiry now : ℕ) (m : Dict HtlcContract)
      → let (c, m') = create hex digest secret sats expiry now m in
        (settle hex digest c.id c.preimage m').0 ≡ ok tt
        × (get_contract c.id (settle hex digest c.id c.preimage m').1
            ≡ some (record c { status = settled }))
  unfolding create get_contract
  settle-create secret sats expiry now m =
      let c = new_contract hex digest secret sats expiry now in
      let e = settle_match now c.preimage (insert now c m) (lookup-insert_self now c m) refl in
      (rw e, rw (e, lookup-insert_self now (record c { status = settled }) (insert now c m)))

  -- A preimage with another hash settles nothing: the call throws and leaves every contract as it was.
  pub settle_mismatch :
      (i p : ℕ) (m : Dict HtlcContract) {c : HtlcContract}
      → lookup i m ≡ some c
      → digest p ≢ c.payment_hash
      → settle hex digest i p m ≡ (err hash_mismatch, m)
  unfolding settle
  settle_mismatch i p m {c} found ne =
      rw (at_key_found not_found i (settle_on hex digest p) m found, settle_on_mismatch p c ne)

  -- A contract that was cancelled is settled all the same by its preimage: no status is asked.
  pub settle_cancelled :
      (i p : ℕ) (m : Dict HtlcContract) {c : HtlcContract}
      → lookup i m ≡ some c
      → digest p ≡ c.payment_hash
      → (settle hex digest i p (cancel i m).1).0 ≡ ok tt
  unfolding cancel cancel_on
  settle_cancelled i p m {c} found e =
      let shut = at_key_found not_found i cancel_on m found in
      let c' = record c { status = cancelled } in
      rw shut (rw (settle_match i p (insert i c' m) (lookup-insert_self i c' m) e))
