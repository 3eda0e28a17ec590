-- ===== src/Stock/Tests.antt =====
-- The stock services on a small workshop, and the theorems at concrete inputs.
use superflow_api.Base.{ℕ, ◌≡◌, refl, true, false, none, some, List, [], ◌∷◌, ◌>>=◌}
use superflow_api.Base.Int.{leb_ℤ, pos, ◌+ℤ◌, ◌-ℤ◌, ◌*ℤ◌}
use superflow_api.Stock.Types.{Db, JobPart, received, catalog, memo, ordered}
use superflow_api.Stock.Table.{stock_at, write}
use superflow_api.Stock.Movements.{find_or_create}
use superflow_api.Stock.Adjust.{TransferStockDto, adjusts_in, adjust_stock, transfer_stock}
use superflow_api.Stock.JobParts.{
  find_job_part, reserve_existing_for_job, consume_for_job, consume_at,
}
use superflow_api.Stock.Purchase.{
  create_po, update_status, receive_item, total_cost, new_items, allows, receiving_warehouse,
  receipt_status,
}
use superflow_api.Stock.Calls.{
  has_new_ids, has_new_ids-HasFreshIds, Call, adjusts, transfers, reserves, consumes, orders,
  updates_order, cancels_order, receives, step, run,
}
use superflow_api.Stock.Ledger.{Reconciles, empty-Reconciled, on_hand_at, reserved_at}
use superflow_api.Stock.Moves.{
  available_at, brought, transfer_stock-moves, reserve_existing_for_job-reserves,
}
use superflow_api.Stock.Orders.Receipts.{AreWithin, run-AreWithin}
use superflow_api.Stock.Orders.Final.{po_status, all_order_anew, run-po_status}
use superflow_api.Stock.Reconcile.Run.{run-Reconciles}

-- One part, two warehouses, and a memo part of job 40 that wants three of it.
abbrev opening : Db
opening = record {
  parts = record { id = 1; is_active = true; min_stock = some (pos 2) } ∷ [];
  warehouses = record { id = 10; is_default = false } ∷ record { id = 11; is_default = true } ∷ [];
  inventory = [];
  movements = [];
  job_parts =
      record {
        id = 30;
        job_id = 40;
        part_id = some 1;
        source = catalog;
        warehouse_id = some 11;
        quantity = pos 3;
        unit_cost = none;
        status = memo;
      }
      ∷ [];
  purchase_orders = [];
  po_items = [];
}

abbrev history : List Call
history =
    adjusts 100 200
      (record {
        part_id = 1;
        warehouse_id = 10;
        quantity = pos 10;
        kind = adjusts_in;
        unit_cost = none;
        notes = none;
      })
      7
    ∷ transfers 101 201 202
        (record {
          part_id = 1;
          from_warehouse_id = 10;
          to_warehouse_id = 11;
          quantity = pos 4;
          notes = none;
        })
        7
    ∷ reserves 203 30 7
    ∷ consumes 204 30 7 (some (pos 2))
    ∷ orders 50 none
        (record { id = 60; part_id = 1; ordered_qty = pos 5; unit_cost = some (pos 200) } ∷ [])
    ∷ updates_order 50 ordered
    ∷ receives 102 205 60 (record { received_qty = pos 5; warehouse_id = none }) 7
    ∷ []

-- What a run computes with.
unfoldable after_history : Db
unfolding run step adjust_stock transfer_stock reserve_existing_for_job consume_for_job consume_at
    create_po update_status receive_item total_cost new_items allows receiving_warehouse
    receipt_status find_or_create stock_at write has_new_ids ◌>>=◌ ◌+ℤ◌ ◌-ℤ◌ ◌*ℤ◌
after_history = run opening history

-- Four moved, two consumed, five received: seven on hand, one still reserved.
run-history :
    (on_hand_at after_history.inventory 1 11 ≡ pos 7)
    × (reserved_at after_history.inventory 1 11 ≡ pos 1)
    × (on_hand_at after_history.inventory 1 10 ≡ pos 6)
unfolding after_history
run-history = (refl, refl, refl)

run-AreWithin_example : AreWithin (run opening history).po_items
unfolding after_history
run-AreWithin_example = run-AreWithin history opening refl (λ id i e. cc)

-- The order is received in full, and no cancellation changes that.
run-po_status_example :
    po_status 50 (run after_history (cancels_order 50 ∷ [])).purchase_orders ≡ some received
unfolding after_history all_order_anew
run-po_status_example =
    run-po_status 50 received refl (cancels_order 50 ∷ []) after_history refl refl

abbrev ten_in : Call
ten_in =
    adjusts 100 200
      (record {
        part_id = 1;
        warehouse_id = 10;
        quantity = pos 10;
        kind = adjusts_in;
        unit_cost = none;
        notes = none;
      })
      7

abbrev four_over : TransferStockDto
four_over = record {
  part_id = 1;
  from_warehouse_id = 10;
  to_warehouse_id = 11;
  quantity = pos 4;
  notes = none;
}

unfoldable stocked : Db
unfolding after_history
stocked = run opening (ten_in ∷ [])

unfoldable moved_over : Db
unfolding stocked transfer_stock
moved_over = step stocked (transfers 101 201 202 four_over 7)

stocked-Reconciles : Reconciles stocked
unfolding stocked
stocked-Reconciles =
    run-Reconciles (ten_in ∷ []) opening (has_new_ids-HasFreshIds opening (ten_in ∷ []) refl)
      empty-Reconciled

transfer_stock-moves_example :
    (leb_ℤ (pos 4) (available_at stocked 1 10) ≡ true)
    × ((p w : ℕ)
        → (on_hand_at moved_over.inventory p w
            ≡ on_hand_at stocked.inventory p w +ℤ brought four_over p w)
          × (reserved_at moved_over.inventory p w ≡ reserved_at stocked.inventory p w))
unfolding moved_over
transfer_stock-moves_example =
    transfer_stock-moves 101 201 202 four_over 7 stocked moved_over
      (has_new_ids-HasFreshIds stocked (transfers 101 201 202 four_over 7 ∷ []) refl).0
      stocked-Reconciles refl

unfoldable reserved_over : Db
unfolding moved_over
reserved_over = step moved_over (reserves 203 30 7)

moved_over-Reconciles : Reconciles moved_over
unfolding moved_over
moved_over-Reconciles =
    run-Reconciles (transfers 101 201 202 four_over 7 ∷ []) stocked
      (has_new_ids-HasFreshIds stocked (transfers 101 201 202 four_over 7 ∷ []) refl)
      stocked-Reconciles

reserve_existing_for_job-reserves_example :
    (j : JobPart) × (p : ℕ) × (w : ℕ) × (find_job_part 30 moved_over.job_parts ≡ some j)
    × (j.part_id ≡ some p)
    × (j.warehouse_id ≡ some w)
    × (leb_ℤ j.quantity (available_at moved_over p w) ≡ true)
    × (reserved_at reserved_over.inventory p w ≡ reserved_at moved_over.inventory p w +ℤ j.quantity)
    × (on_hand_at reserved_over.inventory p w ≡ on_hand_at moved_over.inventory p w)
unfolding reserved_over
reserve_existing_for_job-reserves_example =
    reserve_existing_for_job-reserves 203 30 7 moved_over reserved_over moved_over-Reconciles refl

run-Reconciles_example : Reconciles (run opening history)
unfolding after_history
run-Reconciles_example =
    run-Reconciles history opening (has_new_ids-HasFreshIds opening history refl) empty-Reconciled
