-- ===== src/Governance/Calls/Balance.antt =====
-- The treasury under any sequence of public methods.
use abundance_protocol.Prelude.{
  ℕ, Bool, Option, none, some, List, [], ◌∷◌, ◌≡◌, refl, arith, inl, inr, ◌⊎◌, ◌&&◌, ◌==◌,
  if◌then◌else◌, Bool-cases,
}
use abundance_protocol.Prelude.Int.{ℤ, pos, eqb_ℤ}
use abundance_protocol.Result.{Result, ok, err}
use abundance_protocol.Governance.{
  Numbers, Engine, GovernanceError, ProposalType, ExecutionData, Proposal,
}
use abundance_protocol.Governance.Delegation.{set_delegation}
use abundance_protocol.Governance.Treasury.{record_spend, is_treasury_spend}
use abundance_protocol.Governance.Treasury.Ledger.{
  IsBalanced, record_deposit-IsBalanced, record_spend-IsBalanced,
}
use abundance_protocol.Governance.Proposals.{
  create_from_options, create_positional, start_voting, tally_votes, execute_proposal, spend_of,
  unless,
}
use abundance_protocol.Governance.Calls.Timelock.Steps.{execute_proposal-ok}
use abundance_protocol.Governance.Voting.{register_balance, cast_vote}
use abundance_protocol.Governance.Calls.{
  Call, creates_from_options, creates_positional, starts, casts, tallies, executes, deposits,
  spends, delegates, registers, perform, run, after, after_with,
}

module _ {R : Type 0} (num : Numbers R) where
  kept :
      (s : Engine R) (r : Result GovernanceError (Engine R))
      → IsBalanced s.treasury
      → ((s' : Engine R) → r ≡ ok s' → IsBalanced s'.treasury)
      → IsBalanced (after s r).treasury
  kept s (ok s') h f = f s' refl
  kept s (err _) h f = h

  kept_with :
      {A : Type 0} (s : Engine R) (r : Result GovernanceError (A × Engine R))
      → IsBalanced s.treasury
      → ((a : A) (s' : Engine R) → r ≡ ok (a, s') → s'.treasury ≡ s.treasury)
      → IsBalanced (after_with s r).treasury
  kept_with s (ok (a, s')) h f = rw (f a s' refl) h
  kept_with s (err _) h f = h

  same :
      (s s' : Engine R) → IsBalanced s.treasury → s'.treasury ≡ s.treasury → IsBalanced s'.treasury
  same s s' h e = rw e h

  start_treasury :
      (i now : ℕ) (s s' : Engine R) → start_voting i now s ≡ ok s' → s'.treasury ≡ s.treasury
  unfolding start_voting
  start_treasury i now s s' e = ground arith

  cast_treasury :
      (i voter : ℕ) (d : Bool) (balance : R) (total : Option R) (now : ℕ) (s s' : Engine R)
      (a : R × Bool)
      → cast_vote num i voter d balance total now s ≡ ok (a, s')
      → s'.treasury ≡ s.treasury
  unfolding cast_vote
  cast_treasury i voter d balance total now s s' a e = ground arith

  tally_treasury :
      (i now : ℕ) (s s' : Engine R) (a : Bool × R × R)
      → tally_votes num i now s ≡ ok (a, s')
      → s'.treasury ≡ s.treasury
  unfolding tally_votes
  tally_treasury i now s s' a e = ground arith

  delegate_treasury :
      (a : ℕ) (target : Option ℕ) (s s' : Engine R)
      → set_delegation a target s ≡ ok s'
      → s'.treasury ≡ s.treasury
  unfolding set_delegation
  delegate_treasury a none s s' e = ground arith
  delegate_treasury a (some b) s s' e = ground arith

  create_treasury :
      (i proposer title text : ℕ) (type : ProposalType) (deposit : ℤ) (x : Option ExecutionData)
      (now : ℕ) (s s' : Engine R)
      → create_positional num i proposer title text type deposit x now s ≡ ok s'
      → s'.treasury ≡ s.treasury
  unfolding create_positional
  create_treasury i proposer title text type deposit x now s s' e = ground arith

  create_options_treasury :
      (i proposer title text : ℕ) (deposit : ℤ) (threshold : Option R) (now : ℕ) (s s' : Engine R)
      → create_from_options num i proposer title text deposit threshold now s ≡ ok s'
      → s'.treasury ≡ s.treasury
  unfolding create_from_options
  create_options_treasury i proposer title text deposit threshold now s s' e = ground arith

  spend_of_cases :
      (i now : ℕ) (p : Proposal R) (s s' : Engine R)
      → spend_of i now p s ≡ ok s'
      → (s' ≡ s)
        ⊎ ((amount : ℤ) × (recipient : ℕ) × (record_spend i amount recipient now s ≡ ok s'))
  unfolding spend_of
  spend_of_cases i now p s s' = spent p.execution_data
    where
      spent :
          (x : Option ExecutionData)
          → elim x [
            | none ↦ ok s
            | some x ↦
                if is_treasury_spend p.type
                  && unless (eqb_ℤ x.amount (pos 0))
                  && unless (x.recipient == 0)
                then record_spend i x.amount x.recipient now s
                else ok s
          ]
            ≡ ok s'
          → (s' ≡ s)
            ⊎ ((amount : ℤ) × (recipient : ℕ) × (record_spend i amount recipient now s ≡ ok s'))
      spent none e = inl (ground arith)
      spent (some x) e =
          elim (Bool-cases (
            is_treasury_spend p.type
            && unless (eqb_ℤ x.amount (pos 0))
            && unless (x.recipient == 0))) [
              | inl c ↦ inr (x.amount, x.recipient, ground (arith, c))
              | inr c ↦ inl (ground (arith, c))
            ]

  execute_proposal-IsBalanced :
      (i now : ℕ) (s s' : Engine R)
      → IsBalanced s.treasury
      → execute_proposal i now s ≡ ok s'
      → IsBalanced s'.treasury
  execute_proposal-IsBalanced i now s s' h e =
      let (p, _, s₁, _, _, _, _, spent, there) = execute_proposal-ok 0 i now s s' e in
      rw there (elim (spend_of_cases i now p s s₁ spent) [
        | inl same ↦ rw same h
        | inr (amount, recipient, r) ↦ record_spend-IsBalanced i amount recipient now s s₁ h r
      ])

  perform-IsBalanced :
      (c : Call R) (s : Engine R) → IsBalanced s.treasury → IsBalanced (perform num c s).treasury
  unfolding perform register_balance
  perform-IsBalanced (creates_from_options i a b d deposit t now) s h =
      kept s _ h (λ s' e. same s s' h (create_options_treasury i a b d deposit t now s s' e))
  perform-IsBalanced (creates_positional i a b d type deposit x now) s h =
      kept s _ h (λ s' e. same s s' h (create_treasury i a b d type deposit x now s s' e))
  perform-IsBalanced (starts i now) s h =
      kept s _ h (λ s' e. same s s' h (start_treasury i now s s' e))
  perform-IsBalanced (casts i voter d balance total now) s h =
      kept_with s _ h (λ a s' e. cast_treasury i voter d balance total now s s' a e)
  perform-IsBalanced (tallies i now) s h = kept_with s _ h (λ a s' e. tally_treasury i now s s' a e)
  perform-IsBalanced (executes i now) s h =
      kept s _ h (λ s' e. execute_proposal-IsBalanced i now s s' h e)
  perform-IsBalanced (deposits amount source now) s h =
      kept s _ h (λ s' e. record_deposit-IsBalanced amount source now s s' h e)
  perform-IsBalanced (spends i amount recipient now) s h =
      kept s _ h (λ s' e. record_spend-IsBalanced i amount recipient now s s' h e)
  perform-IsBalanced (delegates a target) s h =
      kept s _ h (λ s' e. same s s' h (delegate_treasury a target s s' e))
  perform-IsBalanced (registers a balance) s h = h

  -- Whatever public methods are called, in whatever order, the balance of the treasury is what its
  -- transactions add up to and is not negative, if that was so before.
  pub run-IsBalanced :
      (cs : List (Call R)) (s : Engine R)
      → IsBalanced s.treasury
      → IsBalanced (run num cs s).treasury
  unfolding run
  run-IsBalanced [] s h = h
  run-IsBalanced (c ∷ cs) s h = run-IsBalanced cs (perform num c s) (perform-IsBalanced c s h)
