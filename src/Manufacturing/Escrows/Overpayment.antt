-- ===== src/Manufacturing/Escrows/Overpayment.antt =====
-- Payments after a refund, a resolution or a release that is under way.
use abundance_protocol.Prelude.{get_elem?, ℕ, ◌+◌, ◌<◌, ◌≡◌, refl, some, true, arith, length, ap}
use abundance_protocol.Prelude.Int.{ℤ, pos}
use abundance_protocol.Dict.{Dict, lookup, insert, lookup-insert_self, insert-insert}
use abundance_protocol.Result.{is_ok, ok}
use abundance_protocol.Registry.{at_key_found, at_key-ok}
use abundance_protocol.Manufacturing.Escrows.{
  end_on, begin_on, remaining, PoEscrow, release_guards, release_update, release_on, resolve_on,
  refund_on, release_milestone, release_begin, release_end, resolve_dispute, refund_buyer,
  get_remaining_amount, not_found,
}
use abundance_protocol.Manufacturing.Escrows.Payouts.{
  get_elem?-some_of_lt, get_remaining_found, release_milestone_iff,
}

refund_on-ok :
    (e w : PoEscrow) {r : ℤ}
    → refund_on e ≡ ok (r, w)
    → (r ≡ remaining e)
      × (w.milestones_completed ≡ e.milestones_completed)
      × (w.milestone_amounts ≡ e.milestone_amounts)
unfolding refund_on
refund_on-ok e w h = ground arith

-- After a refund of all that is left, the milestones that were not released are still released: the
-- guards do not ask for the status.
pub refund_then_release :
    (m : Dict PoEscrow) (i : ℕ) {e : PoEscrow} {r : ℤ}
    → lookup i m ≡ some e
    → e.milestones_completed < length e.milestone_amounts
    → (refund_buyer i m).0 ≡ ok r
    → (r ≡ get_remaining_amount m i)
      × (is_ok (release_milestone i e.milestones_completed (refund_buyer i m).1).0 ≡ true)
unfolding refund_buyer
refund_then_release m i {e} found more h =
    let (v, w, found', done, now) = at_key-ok not_found i refund_on m h in
    let same : v ≡ e = cc in
    let (amount, left, there) = refund_on-ok v w done in
    (
      rw (get_remaining_found m i found') amount,
      rw now (
          (release_milestone_iff (insert i w m) i e.milestones_completed
              (lookup-insert_self i w m)).1
            (rw (left, same), rw (there, same) more)),
    )

resolve_on_same :
    (p : ℕ) (e w : PoEscrow) {s : ℤ × ℤ}
    → 0 < p
    → p < 100
    → resolve_on (pos p) e ≡ ok (s, w)
    → w ≡ e
unfolding resolve_on
resolve_on_same p e w lo hi h = ground arith

-- A dispute that is resolved with a percentage strictly between 0 and 100 stays disputed, so the
-- same call pays the same two amounts once more.
resolve_dispute_again :
    (m : Dict PoEscrow) (i p : ℕ) {s : ℤ × ℤ}
    → 0 < p
    → p < 100
    → (resolve_dispute i (pos p) m).0 ≡ ok s
    → (resolve_dispute i (pos p) (resolve_dispute i (pos p) m).1).0 ≡ ok s
unfolding resolve_dispute
resolve_dispute_again m i p lo hi h =
    let (v, w, found, done, now) = at_key-ok not_found i (resolve_on (pos p)) m h in
    let same : w ≡ v = resolve_on_same p v w lo hi done in
    let again : lookup i (insert i w m) ≡ some v = rw (lookup-insert_self i w m) (ap some same) in
    rw (now, at_key_found not_found i (resolve_on (pos p)) (insert i w m) again, done)

begin_on-ok :
    (k : ℕ) (e w : PoEscrow) {a : ℕ}
    → begin_on k e ≡ ok (a, w)
    → (release_guards k e ≡ ok a) × (w ≡ e)
unfolding begin_on release_guards
begin_on-ok k e w h = ground arith

-- A call of releaseMilestone that nothing interleaves with is its two parts in turn.
release_sequential :
    (m : Dict PoEscrow) (i k : ℕ) {a : ℕ}
    → (release_begin i k m).0 ≡ ok a
    → release_milestone i k m ≡ (ok a, (release_end i (release_begin i k m).1).1)
unfolding release_begin release_end release_milestone end_on
release_sequential m i k {a} h =
    let (v, w, found, done, now) = at_key-ok not_found i (begin_on k) m h in
    let (amount, same) = begin_on-ok k v w done in
    let held : lookup i (insert i w m) ≡ some v = rw (lookup-insert_self i w m) (ap some same) in
    let whole : release_on k v ≡ ok (a, release_update v) = unfold release_on in rw amount in
    rw (now, at_key_found not_found i (release_on k) m found, whole)
      (rw (at_key_found not_found i end_on (insert i w m) held) (rw insert-insert))

begin_found :
    (m : Dict PoEscrow) (i k : ℕ) {e : PoEscrow}
    → lookup i m ≡ some e
    → k ≡ e.milestones_completed
    → k < length e.milestone_amounts
    → (a : ℕ) × (release_begin i k m ≡ (ok a, insert i e m))
      × (get_elem? e.milestone_amounts k ≡ some a)
unfolding release_begin begin_on
begin_found m i k {e} found next more =
    let (a, g) = get_elem?-some_of_lt e.milestone_amounts k more in
    let passed : release_guards k e ≡ ok a = unfold release_guards in ground arith in
    (a, rw (at_key_found not_found i (begin_on k) m found) (rw passed), g)

end_found :
    (m : Dict PoEscrow) (i : ℕ) {e : PoEscrow}
    → lookup i m ≡ some e
    → (release_end i m).1 ≡ insert i (release_update e) m
unfolding release_end end_on
end_found m i found = rw (at_key_found not_found i end_on m found)

completed-update :
    (e : PoEscrow) → (release_update e).milestones_completed ≡ e.milestones_completed + 1
unfolding release_update
completed-update e = refl

-- Two calls for the next milestone that both pass the guards before either changes the escrow both
-- pay its amount, and two milestones are counted as paid.
pub release_race :
    (m : Dict PoEscrow) (i k : ℕ) {e : PoEscrow}
    → lookup i m ≡ some e
    → k ≡ e.milestones_completed
    → k < length e.milestone_amounts
    → let m1 = (release_begin i k m).1 in
      let m2 = (release_begin i k m1).1 in
      let m4 = (release_end i (release_end i m2).1).1 in
      (a : ℕ) × (get_elem? e.milestone_amounts k ≡ some a)
      × ((release_begin i k m).0 ≡ ok a)
      × ((release_begin i k m1).0 ≡ ok a)
      × (x : PoEscrow) × (lookup i m4 ≡ some x)
      × (x.milestones_completed ≡ k + 2)
release_race m i k {e} found next more =
    let (a, first, amount) = begin_found m i k found next more in
    let m1 = insert i e m in
    let held1 : lookup i m1 ≡ some e = lookup-insert_self i e m in
    let (b, second, amount') = begin_found m1 i k held1 next more in
    let held2 = lookup-insert_self i e m1 in
    let e3 = release_update e in
    let m3 = insert i e3 (insert i e m1) in
    let held3 = lookup-insert_self i e3 (insert i e m1) in
    let held4 = lookup-insert_self i (release_update e3) m3 in
    (
      a,
      amount,
      rw first,
      rw first (rw second (cc)),
      release_update e3,
      rw first
          (rw second (rw (end_found (insert i e m1) i held2) (rw (end_found m3 i held3) held4))),
      omega (arith, completed-update e3, completed-update e),
    )
