-- ===== src/Manufacturing/Escrows/Custody.antt =====
-- What holds of every escrow of the Map between two calls, whatever the calls.
use abundance_protocol.Prelude.{
  ℕ, ◌≤◌, ◌≡◌, inl, inr, List, [], ◌∷◌, arith, length, sum, ltb, Bool-cases,
}
use abundance_protocol.Prelude.Int.{ℤ}
use abundance_protocol.Dict.{Dict, Every, Every-insert}
use abundance_protocol.Result.{Result, ok, err}
use abundance_protocol.Registry.{at_key-Every, at_key-err}
use abundance_protocol.Manufacturing.Escrows.{
  EscrowError, PoEscrow, create_escrow, release_on, release_guards, release_update, dispute_on,
  resolve_on, refund_on, release_milestone, raise_dispute, resolve_dispute, refund_buyer, not_found,
}

-- The amounts of the milestones stay within the total, and no more milestones are paid than exist.
pub record IsSound (e : PoEscrow) : Type 0 where
  pub covered : sum e.milestone_amounts ≤ e.total_amount
  pub counted : e.milestones_completed ≤ length e.milestone_amounts

abbrev pub IsValid : Dict PoEscrow → Type 0
IsValid m = Every (λ _ e. IsSound e) m

-- The public methods that change the state, with what the environment supplies.
pub data Call : Type 0 where
  creates : ℕ → ℕ → ℕ → List ℕ → ℕ → ℕ → ℕ → ℕ → ℕ → Call
  releases : ℕ → ℕ → Call
  disputes : ℕ → Call
  resolves : ℕ → ℤ → Call
  refunds : ℕ → Call

-- A result whose value is dropped.
abbrev forget : {A : Type 0} → Result EscrowError A → Result EscrowError Unit
forget (ok _) = ok tt
forget (err e) = err e

-- One call: whether it threw, and the Map that it left. `account` is the wallet's.
unfoldable pub perform : ℕ → Call → Dict PoEscrow → Result EscrowError Unit × Dict PoEscrow
perform account (creates b c t ms specs d new_id tx now) m =
    let (r, m') = create_escrow account b c t ms specs d new_id tx now m in (forget r, m')
perform account (releases i k) m = let (r, m') = release_milestone i k m in (forget r, m')
perform account (disputes i) m = raise_dispute i m
perform account (resolves i p) m = let (r, m') = resolve_dispute i p m in (forget r, m')
perform account (refunds i) m = let (r, m') = refund_buyer i m in (forget r, m')

unfoldable pub run : ℕ → List Call → Dict PoEscrow → Dict PoEscrow
run account [] m = m
run account (c ∷ cs) m = run account cs (perform account c m).1

create-IsValid :
    (a b c t : ℕ) (ms : List ℕ) (specs d new_id tx now : ℕ) (m : Dict PoEscrow)
    → IsValid m
    → IsValid (create_escrow a b c t ms specs d new_id tx now m).1
unfolding create_escrow
create-IsValid a b c t ms specs d new_id tx now m v = elim (Bool-cases (ltb t (sum ms))) [
  | inl exceeds ↦ rw exceeds v
  | inr within ↦
      rw within
        (Every-insert new_id _ m v (record { covered = ground arith; counted = omega arith }))
]

release_on-IsSound :
    (k : ℕ) (e w : PoEscrow) (a : ℕ) → IsSound e → release_on k e ≡ ok (a, w) → IsSound w
unfolding release_on release_guards release_update
release_on-IsSound k e w a v h = ground arith

dispute_on-IsSound : (e w : PoEscrow) (a : Unit) → IsSound e → dispute_on e ≡ ok (a, w) → IsSound w
unfolding dispute_on
dispute_on-IsSound e w a v h = ground arith

resolve_on-IsSound :
    (p : ℤ) (e w : PoEscrow) (a : ℤ × ℤ) → IsSound e → resolve_on p e ≡ ok (a, w) → IsSound w
unfolding resolve_on
resolve_on-IsSound p e w a v h = ground arith

refund_on-IsSound : (e w : PoEscrow) (a : ℤ) → IsSound e → refund_on e ≡ ok (a, w) → IsSound w
unfolding refund_on
refund_on-IsSound e w a v h = ground arith

-- Every public method that changes the state, run to its end before another begins and with a milestone index
-- that is a natural number, but otherwise whatever it is given and whether it returns or throws, keeps the
-- milestone amounts of every escrow within its total and its count of paid milestones within their number.
pub perform-IsValid :
    (account : ℕ) (c : Call) (m : Dict PoEscrow) → IsValid m → IsValid (perform account c m).1
unfolding perform release_milestone raise_dispute resolve_dispute refund_buyer
perform-IsValid account (creates b c t ms specs d new_id tx now) m v =
    create-IsValid account b c t ms specs d new_id tx now m v
perform-IsValid account (releases i k) m v =
    at_key-Every not_found i (release_on k) m v (λ e w a. release_on-IsSound k e w a)
perform-IsValid account (disputes i) m v =
    at_key-Every not_found i dispute_on m v (λ e w a. dispute_on-IsSound e w a)
perform-IsValid account (resolves i p) m v =
    at_key-Every not_found i (resolve_on p) m v (λ e w a. resolve_on-IsSound p e w a)
perform-IsValid account (refunds i) m v =
    at_key-Every not_found i refund_on m v (λ e w a. refund_on-IsSound e w a)

-- So it holds of all that any calls can make out of the empty Map.
pub run-IsValid :
    (account : ℕ) (cs : List Call) (m : Dict PoEscrow) → IsValid m → IsValid (run account cs m)
unfolding run
run-IsValid account [] m v = v
run-IsValid account (c ∷ cs) m v =
    run-IsValid account cs (perform account c m).1 (perform-IsValid account c m v)

forget-err :
    {A : Type 0} (r : Result EscrowError A) {x : EscrowError} → forget r ≡ err x → r ≡ err x
forget-err (ok _) h = cc
forget-err (err _) h = cc

-- A public method that throws leaves every escrow as it was.
pub perform-err :
    (account : ℕ) (c : Call) (m : Dict PoEscrow) {x : EscrowError}
    → (perform account c m).0 ≡ err x
    → (perform account c m).1 ≡ m
unfolding perform release_milestone raise_dispute resolve_dispute refund_buyer create_escrow
perform-err account (creates b c t ms specs d new_id tx now) m h = ground arith
perform-err account (releases i k) m h = at_key-err not_found i (release_on k) m (forget-err _ h)
perform-err account (disputes i) m h = at_key-err not_found i dispute_on m h
perform-err account (resolves i p) m h = at_key-err not_found i (resolve_on p) m (forget-err _ h)
perform-err account (refunds i) m h = at_key-err not_found i refund_on m (forget-err _ h)
