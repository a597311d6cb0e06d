-- ===== src/Tests/Governance/Treasury.antt =====
-- A deposit and two spends on a treasury of 400 sats.
use abundance_protocol.Prelude.{refl, arith}
use abundance_protocol.Prelude.Int.{pos, ◌+ℤ◌, ◌-ℤ◌}
use abundance_protocol.Governance.Treasury.Ledger.{IsBalanced}
use abundance_protocol.Governance.Calls.{run, deposits, spends, executes}
use abundance_protocol.Governance.Calls.Balance.{run-IsBalanced}
use abundance_protocol.Prelude.{[], ◌∷◌}
use abundance_protocol.Tests.Governance.{open_engine, rich, decimals}

rich-IsBalanced : IsBalanced rich
unfolding ◌+ℤ◌ ◌-ℤ◌ rich
rich-IsBalanced = record { accounted = refl; nonneg = omega arith }

run-IsBalanced_example :
    IsBalanced
      (run decimals
        (deposits (pos 5) 2 1 ∷ spends 1 (pos 405) 2 1 ∷ executes 1 2 ∷ [])
        open_engine).treasury
run-IsBalanced_example =
    run-IsBalanced decimals (deposits (pos 5) 2 1 ∷ spends 1 (pos 405) 2 1 ∷ executes 1 2 ∷ [])
      open_engine rich-IsBalanced
