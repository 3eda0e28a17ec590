-- ===== src/Stock/Calls.antt =====
-- The calls that change the stock, and a history of them. A call carries the ids that `uuidv4`
-- returns while it runs.
use superflow_api.Base.{
  ◌≡◌, Bool, true, not, ◌&&◌, ◌==◌, all, arith, ℕ, Option, none, some, List, [], ◌∷◌, after,
}
use superflow_api.Base.Int.{ℤ}
use superflow_api.Stock.Types.{Db, Inventory, PoStatus}
use superflow_api.Stock.Table.{IsFresh, stock_at}
use superflow_api.Stock.Adjust.{AdjustStockDto, TransferStockDto, adjust_stock, transfer_stock}
use superflow_api.Stock.JobParts.{
  reserve_existing_for_job, consume_for_job, return_for_job, cancel_reservation,
}
use superflow_api.Stock.Purchase.{
  CreatePoItemDto, ReceivePoItemDto, create_po, update_status, cancel_po, receive_item,
}

pub data Call : Type 0 where
  adjusts : ℕ → ℕ → AdjustStockDto → ℕ → Call
  transfers : ℕ → ℕ → ℕ → TransferStockDto → ℕ → Call
  reserves cancels : ℕ → ℕ → ℕ → Call
  consumes returns : ℕ → ℕ → ℕ → Option ℤ → Call
  orders : ℕ → Option ℕ → List CreatePoItemDto → Call
  updates_order : ℕ → PoStatus → Call
  cancels_order : ℕ → Call
  receives : ℕ → ℕ → ℕ → ReceivePoItemDto → ℕ → Call

unfoldable pub step : Db → Call → Db
step db (adjusts row movement dto user) = after db (adjust_stock row movement dto user db)
step db (transfers row out_id in_id dto user) =
    after db (transfer_stock row out_id in_id dto user db)
step db (reserves movement id user) = after db (reserve_existing_for_job movement id user db)
step db (cancels movement id user) = after db (cancel_reservation movement id user db)
step db (consumes movement id user q) = after db (consume_for_job movement id user q db)
step db (returns movement id user q) = after db (return_for_job movement id user q db)
step db (orders id supplier items) = (create_po id supplier items db).1
step db (updates_order id status) = after db (update_status id status db)
step db (cancels_order id) = after db (cancel_po id db)
step db (receives row movement item dto user) =
    after db (receive_item row movement item dto user db)

unfoldable pub run : Db → List Call → Db
run db [] = db
run db (c ∷ calls) = run (step db c) calls

-- The id that a call may give to a new inventory row.
abbrev pub new_row : Call → Option ℕ
new_row (adjusts row _ _ _) = some row
new_row (transfers row _ _ _ _) = some row
new_row (receives row _ _ _ _) = some row
new_row _ = none

abbrev pub IsFreshId : Option ℕ → List Inventory → Type 0
IsFreshId none rows = Unit
IsFreshId (some id) rows = IsFresh id rows

-- No call of a history is given the id of a row that is there: `uuidv4` returns new ids.
abbrev pub HasFreshIds : Db → List Call → Type 0
HasFreshIds db [] = Unit
HasFreshIds db (c ∷ calls) = IsFreshId (new_row c) db.inventory × HasFreshIds (step db c) calls

-- The same as a test, for a given history.
abbrev is_new : Option ℕ → List Inventory → Bool
is_new none rows = true
is_new (some id) rows = all (λ r. not (r.id == id)) rows

unfoldable pub has_new_ids : Db → List Call → Bool
has_new_ids db [] = true
has_new_ids db (c ∷ calls) = is_new (new_row c) db.inventory && has_new_ids (step db c) calls

ids-IsFresh :
    (id : ℕ) (rows : List Inventory) → all (λ r. not (r.id == id)) rows ≡ true → IsFresh id rows
unfolding stock_at
ids-IsFresh id [] h p w r e = cc
ids-IsFresh id (x ∷ rows) h p w r e = ground (arith, ids-IsFresh id rows (ground arith) p w r)

is_new-IsFresh : (id : Option ℕ) (rows : List Inventory) → is_new id rows ≡ true → IsFreshId id rows
is_new-IsFresh none rows h = tt
is_new-IsFresh (some id) rows h = ids-IsFresh id rows h

pub has_new_ids-HasFreshIds :
    (db : Db) (calls : List Call) → has_new_ids db calls ≡ true → HasFreshIds db calls
unfolding has_new_ids
has_new_ids-HasFreshIds db [] h = tt
has_new_ids-HasFreshIds db (c ∷ calls) h = (
  is_new-IsFresh (new_row c) db.inventory (ground arith),
  has_new_ids-HasFreshIds (step db c) calls (ground arith),
)
