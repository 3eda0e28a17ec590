-- ===== src/Stock/Reconcile/Run.antt =====
-- The movement log accounts for the inventory over any history of calls.
use superflow_api.Base.{List, [], ◌∷◌}
use superflow_api.Stock.Types.{Db}
use superflow_api.Stock.Purchase.{create_po}
use superflow_api.Stock.Ledger.{Reconciles}
use superflow_api.Stock.Calls.{
  Call, adjusts, transfers, reserves, cancels, consumes, returns, orders, updates_order,
  cancels_order, receives, step, run, HasFreshIds, IsFreshId, new_row,
}
use superflow_api.Stock.Reconcile.Adjust.{adjust_stock-Reconciles, transfer_stock-Reconciles}
use superflow_api.Stock.Reconcile.JobParts.{
  reserve_existing_for_job-Reconciles, consume_for_job-Reconciles, return_for_job-Reconciles,
  cancel_reservation-Reconciles,
}
use superflow_api.Stock.Reconcile.Purchase.{
  receive_item-Reconciles, update_status-Reconciles, cancel_po-Reconciles,
}

step-Reconciles :
    (c : Call) (db : Db)
    → IsFreshId (new_row c) db.inventory
    → Reconciles db
    → Reconciles (step db c)
unfolding step create_po
step-Reconciles (adjusts r m dto u) db f l = (adjust_stock-Reconciles r m dto u db f l).holds
step-Reconciles (transfers r o i dto u) db f l =
    (transfer_stock-Reconciles r o i dto u db f l).holds
step-Reconciles (reserves m id u) db f l = (reserve_existing_for_job-Reconciles m id u db l).holds
step-Reconciles (cancels m id u) db f l = (cancel_reservation-Reconciles m id u db l).holds
step-Reconciles (consumes m id u q) db f l = (consume_for_job-Reconciles m id u q db l).holds
step-Reconciles (returns m id u q) db f l = (return_for_job-Reconciles m id u q db l).holds
step-Reconciles (orders id supplier items) db f l = l
step-Reconciles (updates_order id s) db f l = (update_status-Reconciles id s db l).holds
step-Reconciles (cancels_order id) db f l = (cancel_po-Reconciles id db l).holds
step-Reconciles (receives r m i dto u) db f l = (receive_item-Reconciles r m i dto u db f l).holds

-- After any history of stock calls that starts from tables for which the movement log accounts,
-- whether the calls succeed or throw, and in which new inventory rows get fresh ids, the log
-- still accounts for the tables: in every warehouse each part's quantity on hand and its reserved
-- quantity are the sums of the effects of its movements there, its available quantity is the
-- first less the second, and no two rows of different keys share an id.
pub run-Reconciles :
    (calls : List Call) (db : Db) → HasFreshIds db calls → Reconciles db → Reconciles (run db calls)
unfolding run
run-Reconciles [] db fresh ledger = ledger
run-Reconciles (c ∷ calls) db fresh ledger =
    run-Reconciles calls (step db c) fresh.1 (step-Reconciles c db fresh.0 ledger)
