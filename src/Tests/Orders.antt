-- ===== src/Tests/Orders.antt =====
-- One order of 3 items at 7 each, from its creation to its escrow.
use abundance_protocol.Prelude.{ℕ, ◌+◌, []}
use abundance_protocol.Manufacturing.Orders.{
  Shop, create_order, submit_order, approve_order, fund_order,
}
use abundance_protocol.Manufacturing.Orders.Payment.{Site}

abbrev site : Site ℕ
site = record { keccak = λ n. n + 1; actor = 1; facility = 2; notes = 3; now = 50; tx_hash = 4 }

abbrev ordered : Shop ℕ
ordered = create_order 1 2 3 4 3 7 100 10 (record {
  orders = [];
  order_counter = 0;
  escrows = [];
  tracker = record { tracking_records = []; verified_actors = []; metadata_store = [] };
})

abbrev ready : Shop ℕ
ready = (approve_order 1 3 12 (submit_order 1 11 ordered).1).1

abbrev paid_in : Shop ℕ
paid_in = (fund_order 9 1 5 6 7 13 ready).1
