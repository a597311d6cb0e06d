-- ===== src/Governance/Treasury/Ledger.antt =====
-- The balance of the treasury against its transactions.
use abundance_protocol.Prelude.{ℕ, ◌≡◌, refl, true, some, List, [], ◌∷◌, ◌++◌, arith, if◌then◌else◌}
use abundance_protocol.Prelude.Int.{ℤ, pos, ◌+ℤ◌, ◌-ℤ◌, ◌≤ℤ◌, int_laws}
use abundance_protocol.Dict.{lookup}
use abundance_protocol.Result.{ok}
use abundance_protocol.Governance.{TreasuryState, Transaction, Engine, Proposal}
use abundance_protocol.Governance.Treasury.{
  credit, debit, record_deposit, record_spend, is_treasury_spend,
}

-- what a transaction adds to the balance
abbrev pub effect : Transaction → ℤ
effect tx = if tx.is_deposit then tx.amount else pos 0 -ℤ tx.amount

abbrev pub net : List Transaction → ℤ
net [] = pos 0
net (tx ∷ txs) = effect tx +ℤ net txs

net-append :
    (txs : List Transaction) (tx : Transaction) → net (txs ++ tx ∷ []) ≡ net txs +ℤ effect tx
net-append [] tx = omega int_laws
net-append (u ∷ txs) tx = rw (net-append txs tx) (omega int_laws)

-- The balance is what the transactions add up to, and it is not negative.
pub record IsBalanced (t : TreasuryState) : Type 0 where
  pub accounted : t.balance ≡ net t.transactions
  pub nonneg : pos 0 ≤ℤ t.balance

credit-IsBalanced :
    (amount : ℤ) (source now : ℕ) (t : TreasuryState)
    → pos 1 ≤ℤ amount
    → IsBalanced t
    → IsBalanced (credit amount source now t)
unfolding credit
credit-IsBalanced amount source now t lo h = record {
  accounted = rw net-append (rw (h.accounted) refl);
  nonneg = omega (int_laws, h.nonneg);
}

debit-IsBalanced :
    (i : ℕ) (amount : ℤ) (recipient now : ℕ) (t : TreasuryState)
    → amount ≤ℤ t.balance
    → IsBalanced t
    → IsBalanced (debit i amount recipient now t)
unfolding debit
debit-IsBalanced i amount recipient now t hi h = record {
  accounted = rw (net-append, ← h.accounted) (omega int_laws);
  nonneg = omega int_laws;
}

record_deposit_guarded :
    {R : Type 0} (amount : ℤ) (source now : ℕ) (s s' : Engine R)
    → record_deposit amount source now s ≡ ok s'
    → (pos 1 ≤ℤ amount)
      × (s'.treasury ≡ credit amount source now s.treasury)
      × (s'.proposals ≡ s.proposals)
unfolding record_deposit
record_deposit_guarded amount source now s s' e = ground arith

pub record_spend_guarded :
    {R : Type 0} (i : ℕ) (amount : ℤ) (recipient now : ℕ) (s s' : Engine R)
    → record_spend i amount recipient now s ≡ ok s'
    → (pos 1 ≤ℤ amount)
      × (amount ≤ℤ s.treasury.balance)
      × (s'.treasury ≡ debit i amount recipient now s.treasury)
      × (s'.proposals ≡ s.proposals)
unfolding record_spend
record_spend_guarded i amount recipient now s s' e = ground arith

-- A deposit that is accepted keeps the balance accounted for and not negative.
pub record_deposit-IsBalanced :
    {R : Type 0} (amount : ℤ) (source now : ℕ) (s s' : Engine R)
    → IsBalanced s.treasury
    → record_deposit amount source now s ≡ ok s'
    → IsBalanced s'.treasury
record_deposit-IsBalanced amount source now s s' h e =
    let (lo, there, _) = record_deposit_guarded amount source now s s' e in
    rw there (credit-IsBalanced amount source now s.treasury lo h)

-- A spend that is accepted keeps the balance accounted for and not negative.
pub record_spend-IsBalanced :
    {R : Type 0} (i : ℕ) (amount : ℤ) (recipient now : ℕ) (s s' : Engine R)
    → IsBalanced s.treasury
    → record_spend i amount recipient now s ≡ ok s'
    → IsBalanced s'.treasury
record_spend-IsBalanced i amount recipient now s s' h e =
    let (lo, hi, there, _) = record_spend_guarded i amount recipient now s s' e in
    rw there (debit-IsBalanced i amount recipient now s.treasury hi h)

-- The guard on a spend asks for the type of the proposal only: whatever phase the proposal is in,
-- any positive amount that the balance covers is paid, and the proposal is left as it was.
record_spend_any_status :
    {R : Type 0} (i : ℕ) (amount : ℤ) (recipient now : ℕ) (s : Engine R) {p : Proposal R}
    → lookup i s.proposals ≡ some p
    → is_treasury_spend p.type ≡ true
    → pos 1 ≤ℤ amount
    → amount ≤ℤ s.treasury.balance
    → (s' : Engine R) × (record_spend i amount recipient now s ≡ ok s')
      × (s'.treasury.balance +ℤ amount ≡ s.treasury.balance)
      × (lookup i s'.proposals ≡ some p)
unfolding record_spend debit
record_spend_any_status i amount recipient now s found spends lo hi = (
  record s { treasury = debit i amount recipient now s.treasury },
  ground (arith, found),
  omega int_laws,
  found,
)
