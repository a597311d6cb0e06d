-- ===== src/Manufacturing/Orders/Payment.antt =====
-- The methods of orders.ts that record checkpoints and release payments.
pub mod Completion
use abundance_protocol.Prelude.{
  ◌||◌, not, ℕ, Bool, true, false, Option, none, some, List, [], ◌∷◌, ◌==◌, if◌then◌else◌,
  get_elem?, set,
}
use abundance_protocol.Prelude.Int.{ℤ, pos, eqb_ℤ}
use abundance_protocol.Dict.{Dict, lookup, insert}
use abundance_protocol.Result.{Result, ok, err}
use abundance_protocol.Manufacturing.Escrows.{
  raise_dispute, resolve_dispute, PoEscrow, EscrowError, release_milestone,
}
use abundance_protocol.Manufacturing.Tracking.{
  Tracker, TrackingError, SupplyChainStage, production_start, manufacturing_progress,
  quality_control_1, packaging, shipping, record_checkpoint,
}
use abundance_protocol.Manufacturing.Orders.{
  disputed, cancelled, refunded, Order, Milestone, Shop, OrderError, OrderStatus, is_status,
  with_order, is_open, milestone_not_found, milestone_closed, wrong_status, from_escrow,
  from_tracking, completed, complete, production_complete, in_production, funded, in_shipping,
  not_found,
}

-- what a checkpoint of this service is recorded with
pub record Site (Metadata : Type 0) : Type 0 where
  pub keccak : Metadata → ℕ
  pub actor : ℕ
  pub facility : ℕ
  pub notes : Metadata
  pub now : ℕ
  pub tx_hash : ℕ

module _ {Metadata : Type 0} (site : Site Metadata) where
  -- for (const trackingId of order.trackingIds) await …recordCheckpoint(…), for each stage in turn
  unfoldable pub checkpoints :
      List ℕ
      → SupplyChainStage
      → Tracker Metadata
      → Result TrackingError (Unit {0}) × Tracker Metadata
  checkpoints [] stage t = (ok tt, t)
  checkpoints (i ∷ is) stage t =
      elim (record_checkpoint site.keccak site.actor i stage site.facility (some site.notes)
        site.now site.tx_hash t) [ ok (_, t') ↦ checkpoints is stage t' | err e ↦ (err e, t) ]

  -- the state after the loop, and its error where a checkpoint was refused
  abbrev traced :
      {A : Type 0}
      → A
      → Shop Metadata
      → Result TrackingError (Unit {0}) × Tracker Metadata
      → Result OrderError A × Shop Metadata
  traced a s (ok _, t) = (ok a, record s { tracker = t })
  traced a s (err e, t) = (err (from_tracking e), record s { tracker = t })

  unfoldable pub start_production : ℕ → Shop Metadata → Result OrderError (Unit {0}) × Shop Metadata
  start_production i s =
      with_order i (λ o. is_status o.status funded) wrong_status
        (λ o.
          let o' : Order = record o { status = in_production; updated_at = site.now } in
          traced tt (record s { orders = insert i o' s.orders })
            (checkpoints o.tracking_ids production_start s.tracker))
        s

  unfoldable pub report_progress : ℕ → Shop Metadata → Result OrderError (Unit {0}) × Shop Metadata
  report_progress i s =
      with_order i (λ o. is_status o.status in_production) wrong_status
        (λ o. traced tt s (checkpoints o.tracking_ids manufacturing_progress s.tracker)) s

  -- the second milestone, with the checkpoints of its quality control: a refusal of one comes with the
  -- new status and the old `updatedAt`
  abbrev inspected :
      ℕ
      → Order
      → ℕ
      → Shop Metadata
      → Result TrackingError (Unit {0}) × Tracker Metadata
      → Result OrderError ℕ × Shop Metadata
  inspected i o amount s (ok _, t) =
      let o' : Order = record o { status = production_complete; updated_at = site.now } in
      (ok amount, record s { tracker = t; orders = insert i o' s.orders })
  inspected i o amount s (err e, t) =
      let o' : Order = record o { status = production_complete } in
      (err (from_tracking e), record s { tracker = t; orders = insert i o' s.orders })

  -- completeMilestone after the release: the status of the order, by the milestone's index
  unfoldable pub close_milestone :
      ℕ → ℕ → Order → ℕ → Shop Metadata → Result OrderError ℕ × Shop Metadata
  close_milestone i k o amount s =
      let status = if k == 2 then complete else o.status in
      let o' : Order = record o { status = status; updated_at = site.now } in
      if k == 1
      then inspected i o amount s (checkpoints o.tracking_ids quality_control_1 s.tracker)
      else (ok amount, record s { orders = insert i o' s.orders })

  -- completeMilestone after the escrow service has answered
  abbrev pub paid :
      ℕ
      → ℕ
      → Order
      → Shop Metadata
      → Result EscrowError ℕ × Dict PoEscrow
      → Result OrderError ℕ × Shop Metadata
  paid i k o s (err e, escrows) = (err (from_escrow e), record s { escrows = escrows })
  paid i k o s (ok amount, escrows) = close_milestone i k o amount (record s { escrows = escrows })

  -- if (order.escrowId): the empty string is falsy
  abbrev pub settle : Option ℕ → ℕ → ℕ → Order → Shop Metadata → Result OrderError ℕ × Shop Metadata
  settle none i k o s = close_milestone i k o 0 s
  settle (some e) i k o s =
      if e == 0 then close_milestone i k o 0 s else paid i k o s (release_milestone e k s.escrows)

  -- the milestone is changed before the escrow is asked, so a refusal of the escrow comes with an
  -- order whose milestone is completed
  unfoldable pub complete_milestone :
      ℕ → ℕ → Option ℕ → Shop Metadata → Result OrderError ℕ × Shop Metadata
  complete_milestone i k evidence s = elim (lookup i s.orders) [
    | none ↦ (err not_found, s)
    | some o ↦ elim (get_elem? o.milestones k) [
      | none ↦ (err milestone_not_found, s)
      | some m ↦
          if is_open m.status
          then (let m' : Milestone = record m {
            status = completed;
            completed_at = some site.now;
            evidence_hash = evidence;
          } in
              let o' : Order = record o { milestones = set o.milestones k m' } in
              let s' : Shop Metadata = record s { orders = insert i o' s.orders } in
              settle o.escrow_id i k o' s')
          else (err milestone_closed, s)
    ]
  ]

  -- the two checkpoints of each product of a shipment
  unfoldable pub shipping_checkpoints :
      List ℕ → ℕ → Tracker Metadata → Result TrackingError (Unit {0}) × Tracker Metadata
  shipping_checkpoints [] centre t = (ok tt, t)
  shipping_checkpoints (i ∷ is) centre t =
      elim (record_checkpoint site.keccak site.actor i packaging site.facility (some site.notes)
        site.now site.tx_hash t) [
          | err e ↦ (err e, t)
          | ok (_, t') ↦
              elim (record_checkpoint site.keccak site.actor i shipping centre (some site.notes)
                site.now site.tx_hash t') [
                  | err e ↦ (err e, t')
                  | ok (_, t'') ↦ shipping_checkpoints is centre t''
                ]
        ]

  -- `centre` is the distribution centre
  unfoldable pub report_shipping :
      ℕ → ℕ → Shop Metadata → Result OrderError (Unit {0}) × Shop Metadata
  report_shipping i centre s =
      with_order i (λ o. is_status o.status production_complete) wrong_status
        (λ o.
          let o' : Order = record o { status = in_shipping; updated_at = site.now } in
          traced tt (record s { orders = insert i o' s.orders })
            (shipping_checkpoints o.tracking_ids centre s.tracker))
        s

  abbrev answered :
      {A : Type 0}
      → Shop Metadata
      → Result EscrowError A × Dict PoEscrow
      → Result OrderError A × Shop Metadata
  answered s (ok b, escrows) = (ok b, record s { escrows = escrows })
  answered s (err e, escrows) = (err (from_escrow e), record s { escrows = escrows })

  -- the escrow's dispute, where the order has an escrow
  abbrev dispute_escrow : Option ℕ → Shop Metadata → Result OrderError (Unit {0}) × Shop Metadata
  dispute_escrow none s = (ok tt, s)
  dispute_escrow (some e) s = if e == 0 then (ok tt, s) else answered s (raise_dispute e s.escrows)

  -- raiseDispute of the order: its status changes before the escrow is asked
  unfoldable pub dispute_order : ℕ → Shop Metadata → Result OrderError (Unit {0}) × Shop Metadata
  dispute_order i s =
      with_order i (λ o. not (is_status o.status complete || is_status o.status cancelled))
        wrong_status
        (λ o.
          let o' : Order = record o { status = disputed; updated_at = site.now } in
          dispute_escrow o.escrow_id (record s { orders = insert i o' s.orders }))
        s

  -- the escrow's resolution, where the order has an escrow
  abbrev resolve_escrow : Option ℕ → ℤ → Shop Metadata → Result OrderError (ℤ × ℤ) × Shop Metadata
  resolve_escrow none percent s = (ok (pos 0, pos 0), s)
  resolve_escrow (some e) percent s =
      if e == 0 then (ok (pos 0, pos 0), s) else answered s (resolve_dispute e percent s.escrows)

  abbrev settled_order :
      ℕ
      → ℤ
      → Order
      → Result OrderError (ℤ × ℤ) × Shop Metadata
      → Result OrderError (ℤ × ℤ) × Shop Metadata
  settled_order i percent o (err e, s) = (err e, s)
  settled_order i percent o (ok shares, s) = (
    ok shares,
    record s {
      orders =
          insert i
            (record o {
              status =
                  if eqb_ℤ percent (pos 100)
                  then refunded
                  else if eqb_ℤ percent (pos 0)
                  then complete
                  else o.status;
              updated_at = site.now;
            })
            s.orders;
    },
  )

  -- resolveDispute of the order
  unfoldable pub resolve_order : ℕ → ℤ → Shop Metadata → Result OrderError (ℤ × ℤ) × Shop Metadata
  resolve_order i percent s =
      with_order i (λ o. is_status o.status disputed) wrong_status
        (λ o. settled_order i percent o (resolve_escrow o.escrow_id percent s)) s
