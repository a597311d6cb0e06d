-- ===== src/Manufacturing/Orders/Pricing.antt =====
-- The milestones of an order against its total.
use abundance_protocol.Prelude.{
  false, true, ℕ, ◌+◌, ◌*◌, ◌/◌, ◌≤◌, ◌≡◌, refl, some, List, map, arith, sum, ltb,
}
use abundance_protocol.Dict.{lookup-insert_self, lookup}
use abundance_protocol.Result.{ok}
use abundance_protocol.Manufacturing.Escrows.{PoEscrow, create_escrow}
use abundance_protocol.Manufacturing.Orders.{
  wrong_status, with_order_found, escrowed, Order, Shop, approved, is_status, new_order, fund_order,
}

abbrev pub amounts : Order → List ℕ
amounts o = map (λ m. m.amount) o.milestones

rounding :
    (t : ℕ)
    → (t * 40 / 100 + (t * 40 / 100 + (t * 20 / 100 + 0)) ≤ t)
      × (t ≤ t * 40 / 100 + (t * 40 / 100 + (t * 20 / 100 + 0)) + 2)
rounding t = (omega arith, omega arith)

-- The three default milestones of a new order add up to its total, or to one or two units less, which
-- the roundings leave over.
pub new_order-amounts :
    (i buyer manufacturer ipfs quantity price deadline now : ℕ)
    → let o = new_order i buyer manufacturer ipfs quantity price deadline now in
      (sum (amounts o) ≤ o.total_amount) × (o.total_amount ≤ sum (amounts o) + 2)
unfolding new_order
new_order-amounts i buyer manufacturer ipfs quantity price deadline now =
    rounding (price * quantity)

fund_order_found :
    {M : Type 0} (account i escrow_id tx_hash tracking_id now : ℕ) (s : Shop M) {o : Order}
    → lookup i s.orders ≡ some o
    → is_status o.status approved ≡ true
    → fund_order account i escrow_id tx_hash tracking_id now s
      ≡ escrowed i o tracking_id now s (
          create_escrow account o.buyer o.manufacturer o.total_amount
            (amounts o)
            o.ipfs_hash
            o.delivery_deadline
            escrow_id
            tx_hash
            now
            s.escrows)
unfolding fund_order
fund_order_found account i escrow_id tx_hash tracking_id now s found ready =
    with_order_found i (λ x. is_status x.status approved) wrong_status
      (λ x. escrowed i x tracking_id now s (
        create_escrow account x.buyer x.manufacturer x.total_amount (amounts x) x.ipfs_hash
          x.delivery_deadline escrow_id tx_hash now s.escrows))
      s found ready

-- An approved order whose milestones do not exceed its total is funded: the escrow service accepts it,
-- and the escrow that it makes holds the total and the order's amounts.
pub fund_order-ok :
    {M : Type 0} (account i escrow_id tx_hash tracking_id now : ℕ) (s : Shop M) {o : Order}
    → lookup i s.orders ≡ some o
    → is_status o.status approved ≡ true
    → sum (amounts o) ≤ o.total_amount
    → let (r, s') = fund_order account i escrow_id tx_hash tracking_id now s in
      (r ≡ ok escrow_id)
      × (e : PoEscrow) × (lookup escrow_id s'.escrows ≡ some e)
      × (e.total_amount ≡ o.total_amount)
      × (e.milestone_amounts ≡ amounts o)
      × (e.milestones_completed ≡ 0)
unfolding create_escrow
fund_order-ok account i escrow_id tx_hash tracking_id now s {o} found ready fits =
    let covered : ltb o.total_amount (sum (amounts o)) ≡ false = ground arith in
    rw (fund_order_found account i escrow_id tx_hash tracking_id now s found ready) (
      rw (covered, create_escrow)
        (refl, _, lookup-insert_self escrow_id _ s.escrows, refl, refl, refl))
