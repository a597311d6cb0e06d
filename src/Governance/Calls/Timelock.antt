-- ===== src/Governance/Calls/Timelock.antt =====
-- The timelock: the dates of a proposal against its status (src/governance/engine.ts).
pub mod Steps
pub mod Runs
use abundance_protocol.Prelude.Int.{pos, eqb_ℤ}
use abundance_protocol.Prelude.{
  ◌==◌, ◌&&◌, if◌then◌else◌, ℕ, ◌+◌, ◌≤◌, ◌≡◌, ◌≢◌, refl, Bool, true, false, Option, none, some,
  inl, inr, List, [], ◌∷◌, arith, Option-cases, Bool-cases,
}
use abundance_protocol.Dict.{lookup, insert, Every, Every-insert}
use abundance_protocol.Result.{Result-cases, Result, ok, err}
use abundance_protocol.Governance.{
  ProposalType, standard, Vote, ExecutionData, rejected, GovernanceError, discussion, voting, ℤ,
  Numbers, passed, executed, Proposal, Engine,
}
use abundance_protocol.Governance.Delegation.{set_delegation}
use abundance_protocol.Governance.Treasury.{is_treasury_spend, record_deposit, record_spend}
use abundance_protocol.Governance.Proposals.{
  new_proposal, store, unless, threshold_of, carries, add_proposal, create_from_options,
  create_positional, start_voting, tally_votes, execute_proposal, spend_of,
}
use abundance_protocol.Governance.Voting.{register_balance, cast_vote, place_vote}
use abundance_protocol.Governance.Voting.Cast.{cast_vote-ok}
use abundance_protocol.Governance.Calls.{
  Call, creates_from_options, creates_positional, starts, casts, tallies, executes, deposits,
  spends, delegates, registers, after, after_with, perform, run,
}

module _ {R : Type 0} (lock : ℕ) where
  -- A passed proposal has the time at which it passed; an executed one has the time of its execution
  -- too, at least `lock` later.
  pub record IsTimely (p : Proposal R) : Type 0 where
    pub passed_dated : p.status ≡ passed → (t : ℕ) × (p.passed_at ≡ some t)
    pub executed_late :
        p.status ≡ executed
        → (t u : ℕ) × (p.passed_at ≡ some t) × (p.executed_at ≡ some u) × (t + lock ≤ u)

  pub record IsLocked (s : Engine R) : Type 0 where
    pub same_lock : s.config.timelock_ms ≡ lock
    pub timely : Every (λ _ p. IsTimely p) s.proposals

  -- the effect of a call: nothing, or one proposal is put in the map, with the configuration kept
  pub stored :
      (s s' : Engine R) (i : ℕ) (p : Proposal R)
      → IsLocked s
      → s'.config ≡ s.config
      → s'.proposals ≡ insert i p s.proposals
      → IsTimely p
      → IsLocked s'
  stored s s' i p h c e t = record {
    same_lock = rw c h.same_lock;
    timely = rw e (Every-insert i p s.proposals h.timely t);
  }

  pub kept :
      (s s' : Engine R)
      → IsLocked s
      → s'.config ≡ s.config
      → s'.proposals ≡ s.proposals
      → IsLocked s'
  kept s s' h c e = record { same_lock = rw c h.same_lock; timely = rw e h.timely }

  pub undated : (p : Proposal R) → p.status ≢ passed → p.status ≢ executed → IsTimely p
  undated p a b = record { passed_dated = λ e. absurd (a e); executed_late = λ e. absurd (b e) }

  -- A call has thrown, or it has an engine in which the invariant holds.
  pub after-IsLocked :
      (s : Engine R) (r : Result GovernanceError (Engine R))
      → IsLocked s
      → ((s' : Engine R) → r ≡ ok s' → IsLocked s')
      → IsLocked (after s r)
  after-IsLocked s (ok s') h f = f s' refl
  after-IsLocked s (err _) h f = h

  pub after_with-IsLocked :
      {A : Type 0} (s : Engine R) (r : Result GovernanceError (A × Engine R))
      → IsLocked s
      → ((a : A) (s' : Engine R) → r ≡ ok (a, s') → IsLocked s')
      → IsLocked (after_with s r)
  after_with-IsLocked s (ok (a, s')) h f = f a s' refl
  after_with-IsLocked s (err _) h f = h

  pub add_proposal-IsLocked :
      (p : Proposal R) (s : Engine R)
      → p.status ≡ discussion
      → IsLocked s
      → IsLocked (add_proposal p s)
  add_proposal-IsLocked p s e h =
      stored s (add_proposal p s) p.id p h refl refl
        (undated p (λ x. absurd (ground arith)) (λ x. absurd (ground arith)))
