-- ===== src/Stock/JobParts.antt =====
-- The stock side of `JobPartsService` (src/job-parts/job-parts.service.ts): reserving, consuming,
-- returning and cancelling a part of a job. Each call runs in one transaction.
use superflow_api.Base.{
  ℕ, Bool, true, false, ◌&&◌, ◌||◌, not, Option, none, some, List, ◌∷◌, ◌==◌, find_first,
  update_where, is_some, or_else, Result, ok, not_found, bad_request, ◌>>=◌, ◌>>◌, throw_if,
  or_throw,
}
use superflow_api.Base.Int.{ℤ, ◌+ℤ◌, ◌-ℤ◌, ltb_ℤ}
use superflow_api.Stock.Types.{
  Db, JobPart, Inventory, Movement, MovementType, job_reserve, job_consume, job_return, by_job,
  Note, reserved_for_job, consumed_for_job, returned_from_job, reservation_cancelled, Source,
  catalog, adhoc, PartStatus, memo, reserved, used, returned, cancelled, Reason, job_part_missing,
  only_memo_reserves, only_catalog_reserves, no_warehouse_selected, no_inventory_record,
  insufficient_stock, only_memo_or_reserved_consumes, reserve_before_consuming, consumes_too_much,
  inventory_missing, only_reserved_returns, adhoc_return, returns_too_much,
  only_memo_or_reserved_cancels,
}
use superflow_api.Stock.Table.{stock_at, write}

abbrev pub is_memo : PartStatus → Bool
is_memo memo = true
is_memo _ = false

abbrev pub is_reserved : PartStatus → Bool
is_reserved reserved = true
is_reserved _ = false

abbrev pub is_catalog : Source → Bool
is_catalog catalog = true
is_catalog adhoc = false

abbrev pub find_job_part : ℕ → List JobPart → Option JobPart
find_job_part id = find_first (λ j. j.id == id)

-- tx.job_parts.update({ where: { id }, data: { status } })
abbrev pub set_status : ℕ → PartStatus → List JobPart → List JobPart
set_status id status = update_where (λ j. j.id == id) (λ j. record j { status = status })

-- The movement that a call records for a job part.
abbrev pub job_movement : ℕ → JobPart → ℕ → ℕ → MovementType → ℤ → Option ℤ → Note → ℕ → Movement
job_movement id j part warehouse kind quantity cost note user = record {
  id = id;
  part_id = part;
  warehouse_id = warehouse;
  kind = kind;
  quantity = quantity;
  unit_cost = cost;
  reference = by_job j.job_id;
  notes = some note;
  created_by = user;
}

-- The three writes that end a call: the row, the movement, the status of the job part.
abbrev pub settle : Db → Inventory → ℤ → ℤ → Movement → JobPart → PartStatus → Db
settle db row on_hand held movement j status = record db {
  inventory = write row.id on_hand held db.inventory;
  movements = movement ∷ db.movements;
  job_parts = set_status j.id status db.job_parts;
}

-- `if (!jobPart.part_id || !jobPart.warehouse_id)`, with the ids where both are there
abbrev pub both_ids : JobPart → Option (ℕ × ℕ)
both_ids j = elim j.part_id [
  | none ↦ none
  | some part ↦ elim j.warehouse_id [ none ↦ none | some warehouse ↦ some (part, warehouse) ]
]

-- `reserveExistingForJob`
unfoldable pub reserve_existing_for_job : ℕ → ℕ → ℕ → Db → Result Reason (Unit {0} × Db)
reserve_existing_for_job movement_id id user db = do
  j ← or_throw (find_job_part id db.job_parts) (not_found job_part_missing)
  throw_if (not (is_memo j.status)) (bad_request only_memo_reserves)
  throw_if (not (is_catalog j.source) || not (is_some j.part_id))
      (bad_request only_catalog_reserves)
  part ← or_throw j.part_id (bad_request only_catalog_reserves)
  warehouse ← or_throw j.warehouse_id (bad_request no_warehouse_selected)
  row ← or_throw (stock_at part warehouse db.inventory) (bad_request no_inventory_record)
  throw_if (ltb_ℤ row.available_quantity j.quantity) (bad_request insufficient_stock)
  let movement =
      job_movement movement_id j part warehouse job_reserve j.quantity j.unit_cost reserved_for_job
        user
  ok (
    tt,
    settle db row row.quantity_on_hand (row.reserved_quantity +ℤ j.quantity) movement j reserved,
  )

-- A part with no part id or no warehouse only changes its status.
abbrev only_status : Db → JobPart → PartStatus → Db
only_status db j status = record db { job_parts = set_status j.id status db.job_parts }

-- The end of `consumeForJob`, with the part and the warehouse where the job part has both.
unfoldable pub consume_at :
    ℕ → JobPart → ℤ → ℕ → Db → Option (ℕ × ℕ) → Result Reason (Unit {0} × Db)
consume_at movement_id j quantity user db none = ok (tt, only_status db j used)
consume_at movement_id j quantity user db (some (part, warehouse)) = do
  row ← or_throw (stock_at part warehouse db.inventory) (not_found inventory_missing)
  let on_hand = row.quantity_on_hand -ℤ quantity
  let held = row.reserved_quantity -ℤ quantity
  let movement =
      job_movement movement_id j part warehouse job_consume quantity j.unit_cost consumed_for_job
        user
  ok (tt, settle db row on_hand held movement j used)

-- `consumeForJob`
unfoldable pub consume_for_job : ℕ → ℕ → ℕ → Option ℤ → Db → Result Reason (Unit {0} × Db)
consume_for_job movement_id id user quantity db = do
  j ← or_throw (find_job_part id db.job_parts) (not_found job_part_missing)
  throw_if (not (is_reserved j.status || is_memo j.status))
      (bad_request only_memo_or_reserved_consumes)
  throw_if (is_memo j.status && is_catalog j.source) (bad_request reserve_before_consuming)
  let consume_qty = or_else quantity j.quantity
  throw_if (ltb_ℤ j.quantity consume_qty) (bad_request consumes_too_much)
  consume_at movement_id j consume_qty user db (both_ids j)

-- The end of `returnForJob` and `cancelReservation`: the quantity is no longer reserved.
unfoldable pub release_at :
    ℕ → JobPart → ℤ → Note → PartStatus → ℕ → Db → ℕ × ℕ → Result Reason (Unit {0} × Db)
release_at movement_id j quantity note status user db (part, warehouse) = do
  row ← or_throw (stock_at part warehouse db.inventory) (not_found inventory_missing)
  let held = row.reserved_quantity -ℤ quantity
  let movement = job_movement movement_id j part warehouse job_return quantity none note user
  ok (tt, settle db row row.quantity_on_hand held movement j status)

-- `returnForJob`
unfoldable pub return_for_job : ℕ → ℕ → ℕ → Option ℤ → Db → Result Reason (Unit {0} × Db)
return_for_job movement_id id user quantity db = do
  j ← or_throw (find_job_part id db.job_parts) (not_found job_part_missing)
  throw_if (not (is_reserved j.status)) (bad_request only_reserved_returns)
  key ← or_throw (both_ids j) (bad_request adhoc_return)
  let return_qty = or_else quantity j.quantity
  throw_if (ltb_ℤ j.quantity return_qty) (bad_request returns_too_much)
  release_at movement_id j return_qty returned_from_job returned user db key

-- The end of `cancelReservation`: a memo part, and one with no part id or warehouse, holds no stock.
unfoldable pub cancel_at :
    ℕ → JobPart → ℕ → Db → Bool → Option (ℕ × ℕ) → Result Reason (Unit {0} × Db)
cancel_at movement_id j user db true key = ok (tt, only_status db j cancelled)
cancel_at movement_id j user db false none = ok (tt, only_status db j cancelled)
cancel_at movement_id j user db false (some key) =
    release_at movement_id j j.quantity reservation_cancelled cancelled user db key

-- `cancelReservation`
unfoldable pub cancel_reservation : ℕ → ℕ → ℕ → Db → Result Reason (Unit {0} × Db)
cancel_reservation movement_id id user db = do
  j ← or_throw (find_job_part id db.job_parts) (not_found job_part_missing)
  throw_if (not (is_memo j.status || is_reserved j.status))
      (bad_request only_memo_or_reserved_cancels)
  cancel_at movement_id j user db (is_memo j.status) (both_ids j)
