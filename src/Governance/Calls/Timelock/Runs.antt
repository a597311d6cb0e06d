-- ===== src/Governance/Calls/Timelock/Runs.antt =====
-- The timelock under sequences of public methods.
use abundance_protocol.Prelude.{ℕ, ◌+◌, ◌≤◌, ◌≡◌, refl, some, List, [], ◌∷◌, arith}
use abundance_protocol.Dict.{lookup}
use abundance_protocol.Governance.{Numbers, executed, Proposal, Engine}
use abundance_protocol.Governance.Voting.{register_balance}
use abundance_protocol.Governance.Calls.{
  Call, creates_from_options, creates_positional, starts, casts, tallies, executes, deposits,
  spends, delegates, registers, perform, run,
}
use abundance_protocol.Governance.Calls.Timelock.{
  IsLocked, kept, after-IsLocked, after_with-IsLocked,
}
use abundance_protocol.Governance.Calls.Timelock.Steps.{
  create_from_options-IsLocked, create_positional-IsLocked, start_voting-IsLocked,
  tally_votes-IsLocked, cast_vote-IsLocked, execute_proposal-IsLocked, record_deposit-ok,
  record_spend-ok, set_delegation-ok,
}

module _ {R : Type 0} (lock : ℕ) where
  perform-IsLocked :
      (num : Numbers R) (c : Call R) (s : Engine R)
      → IsLocked lock s
      → IsLocked lock (perform num c s)
  unfolding perform register_balance
  perform-IsLocked num (creates_from_options i a b d deposit t now) s h =
      after-IsLocked lock s _ h
        (λ s' e. create_from_options-IsLocked lock num i a b d deposit t now s s' h e)
  perform-IsLocked num (creates_positional i a b d type deposit x now) s h =
      after-IsLocked lock s _ h
        (λ s' e. create_positional-IsLocked lock num i a b d type deposit x now s s' h e)
  perform-IsLocked num (starts i now) s h =
      after-IsLocked lock s _ h (λ s' e. start_voting-IsLocked lock i now s s' h e)
  perform-IsLocked num (casts i voter d balance total now) s h =
      after_with-IsLocked lock s _ h
        (λ o s' e. cast_vote-IsLocked lock num i voter d balance total now s s' o h e)
  perform-IsLocked num (tallies i now) s h =
      after_with-IsLocked lock s _ h (λ o s' e. tally_votes-IsLocked lock num i now s s' o h e)
  perform-IsLocked num (executes i now) s h =
      after-IsLocked lock s _ h (λ s' e. execute_proposal-IsLocked lock i now s s' h e)
  perform-IsLocked num (deposits amount source now) s h = after-IsLocked lock s _ h (λ s' e.
      let (same, proposals) = record_deposit-ok lock amount source now s s' e in
      kept lock s s' h same proposals)
  perform-IsLocked num (spends i amount recipient now) s h = after-IsLocked lock s _ h (λ s' e.
      let (same, proposals) = record_spend-ok lock i amount recipient now s s' e in
      kept lock s s' h same proposals)
  perform-IsLocked num (delegates a target) s h = after-IsLocked lock s _ h (λ s' e.
      let (same, proposals) = set_delegation-ok lock a target s s' e in
      kept lock s s' h same proposals)
  perform-IsLocked num (registers a balance) s h = kept lock s _ h refl refl

  run-IsLocked :
      (num : Numbers R) (cs : List (Call R)) (s : Engine R)
      → IsLocked lock s
      → IsLocked lock (run num cs s)
  unfolding run
  run-IsLocked num [] s h = h
  run-IsLocked num (c ∷ cs) s h = run-IsLocked num cs (perform num c s) (perform-IsLocked num c s h)

-- Whatever sequence of public methods is called on an engine without proposals, every proposal that is
-- 'executed' then has a time at which it passed and a time of execution that is later by the
-- configured `timelockMs` at least.
pub run_executed_late :
    {R : Type 0} (num : Numbers R) (cs : List (Call R)) (s : Engine R) (i : ℕ) (p : Proposal R)
    → s.proposals ≡ []
    → lookup i (run num cs s).proposals ≡ some p
    → p.status ≡ executed
    → (t : ℕ) × (u : ℕ) × (p.passed_at ≡ some t)
      × (p.executed_at ≡ some u)
      × (t + s.config.timelock_ms ≤ u)
run_executed_late num cs s i p none_yet found e =
    let start : IsLocked s.config.timelock_ms s = record {
      same_lock = refl;
      timely = λ j q x. absurd (ground arith);
    } in
    ((run-IsLocked s.config.timelock_ms num cs s start).timely i p found).executed_late e
