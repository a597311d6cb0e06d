-- ===== src/Manufacturing/Orders.antt =====
-- src/manufacturing/orders.ts, class ManufacturingOrders, with its escrow and tracking services: the
-- state has the maps of all three. Prices are bigints, here naturals. What the methods below do not
-- read stays out: the product's text but for `ipfsHash`, the contact data, the milestones' names, and
-- the passports' tokens. A call may throw after it has changed an order, so the state comes with the
-- error.
pub mod Pricing
pub mod Payment
use abundance_protocol.Prelude.{
  refl, ◌≡◌, ℕ, ◌+◌, ◌*◌, ◌/◌, Bool, true, false, not, Option, none, some, List, [], ◌∷◌, ◌++◌, map,
  ◌==◌, ◌&&◌, ◌||◌, if◌then◌else◌, length, get_elem?, set,
}
use abundance_protocol.Prelude.Int.{ℤ, pos, ◌-ℤ◌, eqb_ℤ}
use abundance_protocol.Dict.{Dict, lookup, insert}
use abundance_protocol.Result.{Result, ok, err}
use abundance_protocol.Manufacturing.Escrows.{
  PoEscrow, EscrowError, create_escrow, release_milestone, raise_dispute, resolve_dispute,
}
use abundance_protocol.Manufacturing.Tracking.{
  Tracker, TrackingError, SupplyChainStage, production_start, manufacturing_progress,
  quality_control_1, packaging, shipping, initialize_tracking, record_checkpoint,
}

pub data OrderStatus : Type 0 where
  draft pending_approval approved funded in_production production_complete : OrderStatus
  in_shipping delivered complete disputed cancelled refunded : OrderStatus

pub data MilestoneStatus : Type 0 where
  pending in_progress completed disputed_milestone : MilestoneStatus

pub record Milestone : Type 0 where
  pub index : ℕ
  pub amount : ℕ
  pub due_date : ℤ
  pub status : MilestoneStatus
  pub completed_at : Option ℕ
  pub evidence_hash : Option ℕ

pub record Order : Type 0 where
  pub id : ℕ
  pub buyer : ℕ
  pub manufacturer : ℕ
  pub ipfs_hash : ℕ
  pub quantity : ℕ
  pub unit_price : ℕ
  pub total_amount : ℕ
  pub status : OrderStatus
  pub escrow_id : Option ℕ
  pub tracking_ids : List ℕ
  pub milestones : List Milestone
  pub created_at : ℕ
  pub updated_at : ℕ
  pub delivery_deadline : ℕ

-- the orders, and the state of the two services
pub record Shop (Metadata : Type 0) : Type 0 where
  pub orders : Dict Order
  pub order_counter : ℕ
  pub escrows : Dict PoEscrow
  pub tracker : Tracker Metadata

pub data OrderError : Type 0 where
  not_found wrong_status wrong_manufacturer milestone_not_found milestone_closed : OrderError
  from_escrow : EscrowError → OrderError
  from_tracking : TrackingError → OrderError

abbrev day : ℕ
day = 24 * 60 * 60 * 1000

-- one of the three default milestones: a percentage of the total, due some days before the deadline
abbrev milestone_of : ℕ → ℕ → ℕ → ℕ → ℕ → Milestone
milestone_of i total percent deadline days = record {
  index = i;
  amount = total * percent / 100;
  due_date = pos deadline -ℤ pos (days * day);
  status = pending;
  completed_at = none;
  evidence_hash = none;
}

abbrev pub default_milestones : ℕ → ℕ → List Milestone
default_milestones total deadline =
    milestone_of 0 total 40 deadline 21
    ∷ milestone_of 1 total 40 deadline 7
    ∷ milestone_of 2 total 20 deadline 0
    ∷ []

-- the order that createOrder builds
unfoldable pub new_order : ℕ → ℕ → ℕ → ℕ → ℕ → ℕ → ℕ → ℕ → Order
new_order new_id buyer manufacturer ipfs_hash quantity unit_price deadline now = record {
  id = new_id;
  buyer = buyer;
  manufacturer = manufacturer;
  ipfs_hash = ipfs_hash;
  quantity = quantity;
  unit_price = unit_price;
  total_amount = unit_price * quantity;
  status = draft;
  escrow_id = none;
  tracking_ids = [];
  milestones = default_milestones (unit_price * quantity) deadline;
  created_at = now;
  updated_at = now;
  delivery_deadline = deadline;
}

abbrev pub status_rank : OrderStatus → ℕ
status_rank draft = 0
status_rank pending_approval = 1
status_rank approved = 2
status_rank funded = 3
status_rank in_production = 4
status_rank production_complete = 5
status_rank in_shipping = 6
status_rank delivered = 7
status_rank complete = 8
status_rank disputed = 9
status_rank cancelled = 10
status_rank refunded = 11

-- order.status === status
abbrev pub is_status : OrderStatus → OrderStatus → Bool
is_status a b = status_rank a == status_rank b

abbrev is_open : MilestoneStatus → Bool
is_open pending = true
is_open in_progress = true
is_open _ = false

module _ {Metadata : Type 0} where
  abbrev pub store : Order → Shop Metadata → Shop Metadata
  store o s = record s { orders = insert o.id o s.orders }

  unfoldable pub create_order : ℕ → ℕ → ℕ → ℕ → ℕ → ℕ → ℕ → ℕ → Shop Metadata → Shop Metadata
  create_order new_id buyer manufacturer ipfs_hash quantity unit_price deadline now s = record s {
    order_counter = s.order_counter + 1;
    orders =
        insert new_id
          (new_order new_id buyer manufacturer ipfs_hash quantity unit_price deadline now) s.orders;
  }

  -- The order, or 'not found'; then a guard on it, an error where it fails; then the rest.
  abbrev pub with_order :
      {A : Type 0}
      → ℕ
      → (Order → Bool)
      → OrderError
      → (Order → Result OrderError A × Shop Metadata)
      → Shop Metadata
      → Result OrderError A × Shop Metadata
  with_order i guard e rest s = elim (lookup i s.orders) [
    | none ↦ (err not_found, s)
    | some o ↦ if guard o then rest o else (err e, s)
  ]

  pub with_order_found :
      {A : Type 0} (i : ℕ) (guard : Order → Bool) (e : OrderError)
      (rest : Order → Result OrderError A × Shop Metadata) (s : Shop Metadata) {o : Order}
      → lookup i s.orders ≡ some o
      → guard o ≡ true
      → with_order i guard e rest s ≡ rest o
  with_order_found i guard e rest s found ready = rw (found, with_order) (rw ready refl)

  unfoldable pub submit_order : ℕ → ℕ → Shop Metadata → Result OrderError (Unit {0}) × Shop Metadata
  submit_order i now s =
      with_order i (λ o. is_status o.status draft) wrong_status
        (λ o. (
          ok tt,
          record s {
            orders = insert i (record o { status = pending_approval; updated_at = now }) s.orders;
          },
        ))
        s

  unfoldable pub approve_order :
      ℕ → ℕ → ℕ → Shop Metadata → Result OrderError (Unit {0}) × Shop Metadata
  approve_order i address now s =
      with_order i (λ o. is_status o.status pending_approval) wrong_status
        (λ o.
          if o.manufacturer == address
          then (
            ok tt,
            record s {
              orders = insert i (record o { status = approved; updated_at = now }) s.orders;
            },
          )
          else (err wrong_manufacturer, s))
        s

  -- fundOrder after the escrow service has answered
  abbrev pub escrowed :
      ℕ
      → Order
      → ℕ
      → ℕ
      → Shop Metadata
      → Result EscrowError (ℕ × ℕ) × Dict PoEscrow
      → Result OrderError ℕ × Shop Metadata
  escrowed i o tracking_id now s (err e, escrows) =
      (err (from_escrow e), record s { escrows = escrows })
  escrowed i o tracking_id now s (ok (made, _), escrows) = (
    ok made,
    record s {
      escrows = escrows;
      tracker =
          initialize_tracking tracking_id o.manufacturer (some o.delivery_deadline) now s.tracker;
      orders =
          insert i
            (record o {
              escrow_id = some made;
              status = funded;
              updated_at = now;
              tracking_ids = o.tracking_ids ++ tracking_id ∷ [];
            })
            s.orders;
    },
  )

  -- `account` is the wallet of the escrow service; the identifiers are those that it and the tracking
  -- service make. Returns the escrow's identifier.
  unfoldable pub fund_order :
      ℕ → ℕ → ℕ → ℕ → ℕ → ℕ → Shop Metadata → Result OrderError ℕ × Shop Metadata
  fund_order account i escrow_id tx_hash tracking_id now s =
      with_order i (λ o. is_status o.status approved) wrong_status
        (λ o. escrowed i o tracking_id now s (
          create_escrow account o.buyer o.manufacturer o.total_amount
            (map (λ m. m.amount) o.milestones) o.ipfs_hash o.delivery_deadline escrow_id tx_hash now
            s.escrows))
        s

  unfoldable pub cancel_order : ℕ → ℕ → Shop Metadata → Result OrderError (Unit {0}) × Shop Metadata
  cancel_order i now s =
      with_order i (λ o. is_status o.status draft || is_status o.status pending_approval)
        wrong_status
        (λ o. (
          ok tt,
          record s {
            orders = insert i (record o { status = cancelled; updated_at = now }) s.orders;
          },
        ))
        s
