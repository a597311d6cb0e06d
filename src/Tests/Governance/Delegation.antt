-- ===== src/Tests/Governance/Delegation.antt =====
-- One delegation, from 8 to 9, and calls of setDelegation on it.
use abundance_protocol.Prelude.{inr, inl, Bool-cases, ℕ, ◌≢◌, refl, some, [], ◌∷◌, arith, ◌==◌}
use abundance_protocol.Governance.Delegation.{
  voted_in_active, circular_check, walk, set_delegation, out_of_fuel,
}
use abundance_protocol.Governance.Delegation.Acyclic.{
  stop, step, IsAcyclic, Ends, circular_check_total, set_delegation-IsAcyclic,
}
use abundance_protocol.Governance.Delegation.Index.{IsIndexed}
use abundance_protocol.Governance.Calls.{after}
use abundance_protocol.Tests.Governance.{open_engine}

chain-Ends : (x : ℕ) → Ends ((8, 9) ∷ []) x
chain-Ends x = elim (Bool-cases (8 == x)) [
  | inl same ↦ step {y = 9} (ground arith) (stop refl)
  | inr other ↦ stop (ground arith)
]

circular_check_total_example : circular_check ((8, 9) ∷ (9, 8) ∷ []) 7 8 ≢ out_of_fuel
circular_check_total_example = circular_check_total ((8, 9) ∷ (9, 8) ∷ []) 7 8

set_delegation-IsAcyclic_example :
    IsAcyclic (after open_engine (set_delegation 9 (some 3) open_engine)).delegation.delegations
unfolding set_delegation circular_check walk voted_in_active
set_delegation-IsAcyclic_example =
    set_delegation-IsAcyclic 9 (some 3) open_engine
      (after open_engine (set_delegation 9 (some 3) open_engine)) chain-Ends refl

open_engine-IsIndexed : IsIndexed open_engine.delegation
open_engine-IsIndexed = record { agrees = λ a b. ground arith; named = λ a. ground arith }
