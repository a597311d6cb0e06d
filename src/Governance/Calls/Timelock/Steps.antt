-- ===== src/Governance/Calls/Timelock/Steps.antt =====
-- The timelock under each public method (src/governance/engine.ts).
use abundance_protocol.Prelude.Int.{pos, eqb_ℤ}
use abundance_protocol.Prelude.{
  ◌==◌, ◌&&◌, if◌then◌else◌, ℕ, ◌+◌, ◌≤◌, ◌≡◌, refl, Bool, true, false, Option, none, some, inl,
  inr, arith, Option-cases, Bool-cases,
}
use abundance_protocol.Dict.{lookup}
use abundance_protocol.Result.{Result-cases, ok}
use abundance_protocol.Governance.{
  ProposalType, standard, Vote, ExecutionData, rejected, voting, ℤ, Numbers, passed, executed,
  Proposal, Engine,
}
use abundance_protocol.Governance.Delegation.{set_delegation}
use abundance_protocol.Governance.Treasury.{is_treasury_spend, record_deposit, record_spend}
use abundance_protocol.Governance.Proposals.{
  new_proposal, store, unless, threshold_of, carries, add_proposal, create_from_options,
  create_positional, start_voting, tally_votes, execute_proposal, spend_of,
}
use abundance_protocol.Governance.Voting.{cast_vote, place_vote}
use abundance_protocol.Governance.Voting.Cast.{cast_vote-ok}
use abundance_protocol.Governance.Calls.Timelock.{
  IsTimely, IsLocked, stored, undated, add_proposal-IsLocked,
}

module _ {R : Type 0} (lock : ℕ) where
  pub create_from_options-IsLocked :
      (num : Numbers R) (i a b d : ℕ) (deposit : ℤ) (t : Option R) (now : ℕ) (s s' : Engine R)
      → IsLocked lock s
      → create_from_options num i a b d deposit t now s ≡ ok s'
      → IsLocked lock s'
  unfolding create_from_options
  create_from_options-IsLocked num i a b d deposit t now s s' h e =
      let p = new_proposal num i a b d standard deposit none t now s.config in
      let there : s' ≡ add_proposal p s = ground arith in
      rw there (add_proposal-IsLocked lock p s refl h)

  pub create_positional-IsLocked :
      (num : Numbers R) (i a b d : ℕ) (type : ProposalType) (deposit : ℤ) (x : Option ExecutionData)
      (now : ℕ) (s s' : Engine R)
      → IsLocked lock s
      → create_positional num i a b d type deposit x now s ≡ ok s'
      → IsLocked lock s'
  unfolding create_positional
  create_positional-IsLocked num i a b d type deposit x now s s' h e =
      let p = new_proposal num i a b d type deposit x none now s.config in
      let there : s' ≡ add_proposal p s = ground arith in
      rw there (add_proposal-IsLocked lock p s refl h)

  pub start_voting-IsLocked :
      (i now : ℕ) (s s' : Engine R)
      → IsLocked lock s
      → start_voting i now s ≡ ok s'
      → IsLocked lock s'
  unfolding start_voting
  start_voting-IsLocked i now s s' h e = elim (Option-cases (lookup i s.proposals)) [
    | inl missing ↦ absurd (ground (arith, missing))
    | inr (p, found) ↦
        stored lock s s' i (record p { status = voting }) h (ground (arith, found))
          (ground (arith, found))
          (undated lock (record p { status = voting }) (λ x. absurd (ground arith))
            (λ x. absurd (ground arith)))
  ]

  pub tally_votes-IsLocked :
      (num : Numbers R) (i now : ℕ) (s s' : Engine R) (o : Bool × R × R)
      → IsLocked lock s
      → tally_votes num i now s ≡ ok (o, s')
      → IsLocked lock s'
  unfolding tally_votes
  tally_votes-IsLocked num i now s s' o h e = elim (Option-cases (lookup i s.proposals)) [
    | inl missing ↦ absurd (ground (arith, missing))
    | inr (p, found) ↦
        let approving = p.total_for_power in
        let against = p.total_against_power in
        let carried = carries num approving (num.add approving against) (threshold_of num s p) in
        let q : Proposal R =
          if carried
          then record p { status = passed; passed_at = some now }
          else record p { status = rejected } in
        stored lock s s' i q h (ground (arith, found)) (ground (arith, found))
          (decided p now carried)
  ]
    where
      decided :
          (p : Proposal R) (now : ℕ) (c : Bool)
          → IsTimely lock (
              if c
              then record p { status = passed; passed_at = some now }
              else record p { status = rejected })
      decided p now true = record {
        passed_dated = λ _. (now, refl);
        executed_late = λ x. absurd (ground arith);
      }
      decided p now false =
          undated lock (record p { status = rejected }) (λ x. absurd (ground arith))
            (λ x. absurd (ground arith))

  pub cast_vote-IsLocked :
      (num : Numbers R) (i voter : ℕ) (d : Bool) (balance : R) (total : Option R) (now : ℕ)
      (s s' : Engine R) (o : R × Bool)
      → IsLocked lock s
      → cast_vote num i voter d balance total now s ≡ ok (o, s')
      → IsLocked lock s'
  unfolding place_vote
  cast_vote-IsLocked num i voter d balance total now s s' (power, capped) h e =
      let (p, found, same, there) = cast_vote-ok num i voter d balance total now s s' e in
      let v : Vote R = record {
        power = power;
        direction = d;
        timestamp = now;
        raw_balance = balance;
      } in
      let t : IsTimely lock p = h.timely i p found in
      stored lock s s' i (place_vote num voter v p) h same there
        (record { passed_dated = t.passed_dated; executed_late = t.executed_late })

  pub record_deposit-ok :
      (amount : ℤ) (source now : ℕ) (s s' : Engine R)
      → record_deposit amount source now s ≡ ok s'
      → (s'.config ≡ s.config) × (s'.proposals ≡ s.proposals)
  unfolding record_deposit
  record_deposit-ok amount source now s s' e = (ground arith, ground arith)

  pub record_spend-ok :
      (i : ℕ) (amount : ℤ) (recipient now : ℕ) (s s' : Engine R)
      → record_spend i amount recipient now s ≡ ok s'
      → (s'.config ≡ s.config) × (s'.proposals ≡ s.proposals)
  unfolding record_spend
  record_spend-ok i amount recipient now s s' e = (ground arith, ground arith)

  pub set_delegation-ok :
      (a : ℕ) (target : Option ℕ) (s s' : Engine R)
      → set_delegation a target s ≡ ok s'
      → (s'.config ≡ s.config) × (s'.proposals ≡ s.proposals)
  unfolding set_delegation
  set_delegation-ok a none s s' e = (ground arith, ground arith)
  set_delegation-ok a (some b) s s' e = (ground arith, ground arith)

  spend_of-ok :
      (i now : ℕ) (p : Proposal R) (s s' : Engine R)
      → spend_of i now p s ≡ ok s'
      → (s'.config ≡ s.config) × (s'.proposals ≡ s.proposals)
  unfolding spend_of
  spend_of-ok i now p s s' = spent p.execution_data
    where
      spent :
          (x : Option ExecutionData)
          → elim x [
            | none ↦ ok s
            | some x ↦
                if is_treasury_spend p.type
                  && unless (eqb_ℤ x.amount (pos 0))
                  && unless (x.recipient == 0)
                then record_spend i x.amount x.recipient now s
                else ok s
          ]
            ≡ ok s'
          → (s'.config ≡ s.config) × (s'.proposals ≡ s.proposals)
      spent none e = (ground arith, ground arith)
      spent (some x) e =
          elim (Bool-cases (
            is_treasury_spend p.type
            && unless (eqb_ℤ x.amount (pos 0))
            && unless (x.recipient == 0))) [
              | inl c ↦ record_spend-ok i x.amount x.recipient now s s' (ground (arith, c))
              | inr c ↦ (ground (arith, c), ground (arith, c))
            ]

  -- what an execution that returns has checked, and what it has changed
  pub execute_proposal-ok :
      (i now : ℕ) (s s' : Engine R)
      → execute_proposal i now s ≡ ok s'
      → (p : Proposal R) × (t : ℕ) × (s₁ : Engine R) × (lookup i s.proposals ≡ some p)
        × (p.status ≡ passed)
        × (p.passed_at ≡ some t)
        × (t + s.config.timelock_ms ≤ now)
        × (spend_of i now p s ≡ ok s₁)
        × (s' ≡ store i (record p { status = executed; executed_at = some now }) s₁)
  unfolding execute_proposal
  execute_proposal-ok i now s s' e = elim (Option-cases (lookup i s.proposals)) [
    | inl missing ↦ absurd (ground (arith, missing))
    | inr (p, found) ↦ elim (Option-cases p.passed_at) [
      | inl undatable ↦ absurd (ground (arith, found, undatable))
      | inr (t, at) ↦ elim (Result-cases (spend_of i now p s)) [
        | inr (x, failed) ↦ absurd (ground (arith, found, at, failed))
        | inl (s₁, spent) ↦ (
          p,
          t,
          s₁,
          found,
          ground (arith, found, at, spent),
          at,
          ground (arith, found, at, spent),
          spent,
          ground (arith, found, at, spent),
        )
      ]
    ]
  ]

  pub execute_proposal-IsLocked :
      (i now : ℕ) (s s' : Engine R)
      → IsLocked lock s
      → execute_proposal i now s ≡ ok s'
      → IsLocked lock s'
  execute_proposal-IsLocked i now s s' h e =
      let (p, t, s₁, found, _, at, late, spent, there) = execute_proposal-ok i now s s' e in
      let (same, proposals) = spend_of-ok i now p s s₁ spent in
      let q : Proposal R = record p { status = executed; executed_at = some now } in
      let late' : t + lock ≤ now = ground (arith, h.same_lock) in
      rw there (
        stored lock s (store i q s₁) i q h same (rw proposals refl) (record {
          passed_dated = λ x. absurd (ground arith);
          executed_late = λ _. (t, now, at, refl, late');
        }))
