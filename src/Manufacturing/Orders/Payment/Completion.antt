-- ===== src/Manufacturing/Orders/Payment/Completion.antt =====
-- What completeMilestone leaves behind where no escrow is there, and where the escrow refuses.
use abundance_protocol.Prelude.{
  zero, suc, ℕ, ◌≡◌, refl, true, false, Option, none, some, List, [], ◌∷◌, ◌==◌, get_elem?, set,
  arith,
}
use abundance_protocol.Dict.{Dict, lookup, insert, lookup-insert_self}
use abundance_protocol.Result.{Result, ok, err}
use abundance_protocol.Manufacturing.Escrows.{PoEscrow, EscrowError, release_milestone}
use abundance_protocol.Manufacturing.Orders.{
  Order, Milestone, Shop, is_open, milestone_closed, from_escrow, completed, complete,
}
use abundance_protocol.Manufacturing.Orders.Payment.{
  settle, paid, Site, complete_milestone, close_milestone,
}

settle_unfunded :
    {M : Type 0} (site : Site M) (q : Option ℕ) (i k : ℕ) (o : Order) (s : Shop M)
    → q ≡ none
    → settle site q i k o s ≡ close_milestone site i k o 0 s
settle_unfunded site none i k o s e = refl
settle_unfunded site (some f) i k o s e = absurd (ground (arith, e))

-- An order without an escrow, in any status, becomes complete by its third milestone, where that is
-- open, with nothing released and the escrows as they were.
complete_milestone_unfunded :
    {M : Type 0} (site : Site M) (i : ℕ) (evidence : Option ℕ) (s : Shop M) {o : Order}
    {m : Milestone}
    → lookup i s.orders ≡ some o
    → o.escrow_id ≡ none
    → get_elem? o.milestones 2 ≡ some m
    → is_open m.status ≡ true
    → let (r, s') = complete_milestone site i 2 evidence s in
      (r ≡ ok 0)
      × (s'.escrows ≡ s.escrows)
      × (o' : Order) × (lookup i s'.orders ≡ some o')
      × (o'.status ≡ complete)
unfolding complete_milestone close_milestone
complete_milestone_unfunded {M} site i evidence s {o} {m} found free there untouched =
    let m' : Milestone = record m {
      status = completed;
      completed_at = some site.now;
      evidence_hash = evidence;
    } in
    let o' : Order = record o { milestones = set o.milestones 2 m' } in
    let o'' : Order = record o' { status = complete; updated_at = site.now } in
    let s' : Shop M = record s { orders = insert i o' s.orders } in
    let step : complete_milestone site i 2 evidence s ≡ close_milestone site i 2 o' 0 s' =
      rw (found, complete_milestone)
        (rw there (rw untouched (settle_unfunded site o.escrow_id i 2 o' s' free))) in
    rw step (refl, refl, o'', lookup-insert_self i o'' (insert i o' s.orders), refl)

get_elem?-set :
    {A : Type 0} (xs : List A) (k : ℕ) (v : A) {x : A}
    → get_elem? xs k ≡ some x
    → get_elem? (set xs k v) k ≡ some v
get_elem?-set [] k v e = absurd (ground arith)
get_elem?-set (x ∷ xs) zero v e = refl
get_elem?-set (x ∷ xs) (suc k) v e = get_elem?-set xs k v e

paid_refused :
    {M : Type 0} (site : Site M) (i k : ℕ) (o : Order) (s : Shop M)
    (r : Result EscrowError ℕ × Dict PoEscrow) {x : EscrowError}
    → r.0 ≡ err x
    → paid site i k o s r ≡ (err (from_escrow x), record s { escrows = r.1 })
paid_refused site i k o s (err y, escrows) e = ground (arith, e)
paid_refused site i k o s (ok a, escrows) e = absurd (ground (arith, e))

settle_refused :
    {M : Type 0} (site : Site M) (q : Option ℕ) (i k e : ℕ) (o : Order) (s : Shop M)
    {x : EscrowError}
    → q ≡ some e
    → (e == 0) ≡ false
    → (release_milestone e k s.escrows).0 ≡ err x
    → settle site q i k o s
      ≡ (err (from_escrow x), record s { escrows = (release_milestone e k s.escrows).1 })
settle_refused site none i k e o s h named refused = absurd (ground (arith, h))
settle_refused site (some f) i k e o s h named refused =
    let same : f ≡ e = ground (arith, h) in
    rw same (rw named (paid_refused site i k o s (release_milestone e k s.escrows) refused))

closed :
    {M : Type 0} (site : Site M) (i k : ℕ) (evidence : Option ℕ) (s : Shop M) {o : Order}
    {m : Milestone}
    → lookup i s.orders ≡ some o
    → get_elem? o.milestones k ≡ some m
    → is_open m.status ≡ false
    → (complete_milestone site i k evidence s).0 ≡ err milestone_closed
unfolding complete_milestone
closed site i k evidence s found there shut =
    rw (found, complete_milestone) (rw there (rw shut refl))

-- Where the escrow refuses the payment of an open milestone, the call throws, and the milestone is
-- completed all the same: a call for it that follows throws too, as for any closed milestone.
complete_milestone_refused :
    {M : Type 0} (site later : Site M) (i k e : ℕ) (evidence proof : Option ℕ) (s : Shop M)
    {o : Order} {m : Milestone} {x : EscrowError}
    → lookup i s.orders ≡ some o
    → o.escrow_id ≡ some e
    → (e == 0) ≡ false
    → get_elem? o.milestones k ≡ some m
    → is_open m.status ≡ true
    → (release_milestone e k s.escrows).0 ≡ err x
    → let (r, s') = complete_milestone site i k evidence s in
      (r ≡ err (from_escrow x)) × ((complete_milestone later i k proof s').0 ≡ err milestone_closed)
unfolding complete_milestone
complete_milestone_refused {M} site later i k e evidence proof s {o} {m} {x} found held named there
      untouched refused =
    let m' : Milestone = record m {
      status = completed;
      completed_at = some site.now;
      evidence_hash = evidence;
    } in
    let o' : Order = record o { milestones = set o.milestones k m' } in
    let s' : Shop M = record s { orders = insert i o' s.orders } in
    let after = record s' { escrows = (release_milestone e k s.escrows).1 } in
    let step : complete_milestone site i k evidence s ≡ (err (from_escrow x), after) =
      rw (found, complete_milestone)
        (rw there
          (rw untouched (settle_refused site o.escrow_id i k e o' s' held named refused))) in
    rw step (
      refl,
      closed later i k proof after (lookup-insert_self i o' s.orders)
          (get_elem?-set o.milestones k m' there) refl,
    )
