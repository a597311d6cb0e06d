-- ===== src/Tests/Escrows.antt =====
-- A purchase order of 1000 wei with three milestones, in the escrow service.
use abundance_protocol.Prelude.{
  get_elem?, ◌↔◌, ◌*◌, ℕ, ◌+◌, ◌≤◌, ◌<◌, ◌≡◌, refl, some, true, [], ◌∷◌, arith,
}
use abundance_protocol.Prelude.Int.{pos, ◌+ℤ◌, ◌≤ℤ◌, ◌-ℤ◌, scale, quot, pos_part}
use abundance_protocol.Dict.{Dict, lookup}
use abundance_protocol.Registry.{at_key}
use abundance_protocol.Result.{ok, is_ok}
use abundance_protocol.Manufacturing.Escrows.{
  disputed, PoEscrow, create_escrow, release_milestone, release_begin, release_end, raise_dispute,
  resolve_dispute, get_remaining_amount, release_on, release_guards, release_update, dispute_on,
  resolve_on, funded,
}
use abundance_protocol.Manufacturing.Escrows.Custody.{
  IsValid, creates, releases, disputes, resolves, run, perform, perform-IsValid, run-IsValid,
}
use abundance_protocol.Manufacturing.Escrows.Payouts.{release_milestone_iff, resolve_dispute_shares}
use abundance_protocol.Manufacturing.Escrows.Overpayment.{release_race}

abbrev opened : PoEscrow
opened = record {
  id = 7;
  buyer = 1;
  manufacturer = 2;
  arbitrator = 9;
  total_amount = 1000;
  milestone_amounts = 400 ∷ 400 ∷ 200 ∷ [];
  status = funded;
  product_specs = 5;
  delivery_deadline = 99;
  created_at = 3;
  milestones_completed = 0;
}

abbrev escrows : Dict PoEscrow
escrows = (7, opened) ∷ []

escrows-IsValid : IsValid escrows
unfolding perform create_escrow
escrows-IsValid =
    perform-IsValid 9 (creates 1 2 1000 (400 ∷ 400 ∷ 200 ∷ []) 5 99 7 0 3) []
      (λ k v e. absurd (ground arith))

-- Two releases, a dispute, and a split of the rest.
shipped :
    run 9
      (releases 7 0 ∷ releases 7 2 ∷ releases 7 1 ∷ disputes 7 ∷ resolves 7 (pos 25) ∷ [])
      escrows
    ≡ (7, record opened { milestones_completed = 2; status = disputed }) ∷ []
unfolding run perform release_milestone at_key release_on release_guards release_update
    raise_dispute dispute_on resolve_dispute resolve_on
shipped = refl

perform-IsValid_example : IsValid (perform 9 (resolves 7 (pos 25)) escrows).1
perform-IsValid_example = perform-IsValid 9 (resolves 7 (pos 25)) escrows escrows-IsValid

release_milestone_iff_example :
    (is_ok (release_milestone 7 0 escrows).0 ≡ true) ↔ ((◌≡◌ {A = ℕ} 0 0) × (0 < 3))
release_milestone_iff_example = release_milestone_iff escrows 7 0 refl

-- the escrow after one release and a dispute
abbrev contested : Dict PoEscrow
contested = (7, record opened { milestones_completed = 1; status = disputed }) ∷ []

contested-IsValid : IsValid contested
unfolding run perform release_milestone at_key release_on release_guards release_update
    raise_dispute dispute_on
contested-IsValid = run-IsValid 9 (releases 7 0 ∷ disputes 7 ∷ []) escrows escrows-IsValid

resolve_dispute_shares_example :
    let r = get_remaining_amount contested 7 in
    ((e : PoEscrow) × (lookup 7 contested ≡ some e) × (e.status ≡ disputed))
    × (pos 0 ≤ℤ pos 33)
    × (pos 33 ≤ℤ pos 100)
    × (pos 198 +ℤ pos 402 ≡ r)
    × (pos 0 ≤ℤ pos 198)
    × (pos 0 ≤ℤ pos 402)
    × (198 * 100 ≤ pos_part r * 33)
    × (pos_part r * 33 < 198 * 100 + 100)
unfolding resolve_dispute at_key resolve_on ◌-ℤ◌ scale quot
resolve_dispute_shares_example = resolve_dispute_shares contested 7 (pos 33) contested-IsValid refl

release_race_example :
    let m1 = (release_begin 7 0 escrows).1 in
    let m4 = (release_end 7 (release_end 7 (release_begin 7 0 m1).1).1).1 in
    (a : ℕ) × (get_elem? opened.milestone_amounts 0 ≡ some a)
    × ((release_begin 7 0 escrows).0 ≡ ok a)
    × ((release_begin 7 0 m1).0 ≡ ok a)
    × (x : PoEscrow) × (lookup 7 m4 ≡ some x)
    × (x.milestones_completed ≡ 0 + 2)
release_race_example = release_race escrows 7 0 refl refl (omega arith)
