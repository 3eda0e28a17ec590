-- ===== src/Stock/Reconcile.antt =====
-- Every call that changes the inventory records what it changed.
pub mod Adjust
pub mod JobParts
pub mod Purchase
pub mod Run
use superflow_api.Base.{
  ℕ, ◌≡◌, refl, sym, Bool, true, false, Option, none, some, List, [], ◌∷◌, arith, ◌==◌, ok, Keeps,
  Keeps-bind, or_throw-eq-ok, throw_if-eq-ok,
}
use superflow_api.Base.Int.{ℤ, pos, ◌+ℤ◌, ◌-ℤ◌, +ℤ_zero, int_laws}
use superflow_api.Stock.Types.{Db, Inventory, Movement, JobPart, PoStatus, Note, PartStatus}
use superflow_api.Stock.Table.{stock_at, write, IsFresh, stock_at-write_keyed}
use superflow_api.Stock.Movements.{find_or_create}
use superflow_api.Stock.Adjust.{
  AdjustStockDto, TransferStockDto, AdjustmentType, adjusts_in, adjusts_out, adjusted,
  adjustment_type, adjust_stock, transfer_stock,
}
use superflow_api.Stock.JobParts.{
  reserve_existing_for_job, consume_for_job, return_for_job, cancel_reservation, consume_at,
  release_at, cancel_at,
}
use superflow_api.Stock.Purchase.{
  ReceivePoItemDto, create_po, update_status, cancel_po, receive_item,
}
use superflow_api.Stock.Ledger.{
  on_hand_effect, reserved_effect, Reconciled, Reconciles, write-Reconciled,
  find_or_create-Reconciled, find_or_create-keeps,
}
use superflow_api.Stock.Calls.{
  Call, adjusts, transfers, reserves, cancels, consumes, returns, orders, updates_order,
  cancels_order, receives, step, run, HasFreshIds, IsFreshId, new_row,
}

-- h - q is h + (0 - q).
pub sub-eq-add : (h q : ℤ) → h -ℤ q ≡ h +ℤ (pos 0 -ℤ q)
sub-eq-add h q = omega int_laws
