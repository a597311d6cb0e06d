-- ===== src/Tests/Payments.antt =====
-- Hold invoices and contracts on a store of one invoice; every secret is its own hash less one.
use abundance_protocol.Prelude.{ℕ, ◌+◌, ◌≡◌, refl, some, List, [], ◌∷◌, true, false, arith}
use abundance_protocol.Payments.Hodl.{
  set, create_hodl_invoice, HodlStore, settle_hodl_invoice, cancel_hodl_invoice,
}
use abundance_protocol.Payments.Hodl.Custody.{
  Step, creates, settles, updates, cancels, run, advance, IsPaired, run-IsPaired,
  cancel_then_settle,
}

abbrev one_more : ℕ → ℕ
one_more n = n + 1

abbrev no_invoices : HodlStore
no_invoices = record { pending_hodls = []; preimages = [] }

abbrev some_steps : List Step
some_steps =
    creates true 4 1000 9 (some 77) 1
    ∷ updates 5 (record { is_held = true; is_confirmed = false; is_canceled = false; secret = 0 })
    ∷ settles true 5 true
    ∷ creates true 8 20 9 (some 78) 2
    ∷ cancels true 9 true
    ∷ []

no_invoices-IsPaired : IsPaired one_more no_invoices
no_invoices-IsPaired = record { keyed = λ k v e. cc; hashed = λ k v e. cc; paired = λ k. refl }

run-IsPaired_example : IsPaired one_more (run one_more some_steps no_invoices)
run-IsPaired_example = run-IsPaired one_more some_steps no_invoices no_invoices-IsPaired

abbrev one_invoice : HodlStore
unfolding advance
one_invoice = advance one_more (creates true 4 1000 9 (some 77) 1) no_invoices

one_invoice_settles : (settle_hodl_invoice true 5 true one_invoice).0 ≡ true
unfolding one_invoice settle_hodl_invoice create_hodl_invoice set
one_invoice_settles = refl

cancel_then_settle_example :
    (settle_hodl_invoice true 5 true (
      run one_more
        (creates true 8 20 9 (some 78) 2 ∷ settles true 5 true ∷ [])
        (cancel_hodl_invoice true 5 true one_invoice).1)).0
    ≡ false
cancel_then_settle_example =
    cancel_then_settle one_more (creates true 8 20 9 (some 78) 2 ∷ settles true 5 true ∷ []) true
      true 5 one_invoice (ground arith, tt)
