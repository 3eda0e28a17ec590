-- ===== src/Stock/Purchase.antt =====
-- `PurchaseOrdersService` (src/purchase-orders/purchase-orders.service.ts): creating an order, its
-- status, and receiving an item into stock.
use superflow_api.Base.{
  ℕ, Bool, true, false, not, Option, none, some, List, [], ◌∷◌, ◌++◌, ◌==◌, if◌then◌else◌,
  find_first, keep_if, update_where, any, all, or_else, Result, ok, not_found, bad_request, ◌>>=◌,
  ◌>>◌, throw_if, or_throw,
}
use superflow_api.Base.Int.{ℤ, pos, ◌+ℤ◌, ◌*ℤ◌, ltb_ℤ, leb_ℤ}
use superflow_api.Stock.Types.{
  Db, Warehouse, Movement, purchase_in, by_purchase_order, received_from_po, PurchaseOrder, PoItem,
  PoStatus, draft, ordered, partially_received, received, cancelled, Reason, po_missing,
  po_item_missing, bad_po_transition, po_not_open, no_warehouse, over_receipt, po_fully_received,
}
use superflow_api.Stock.Table.{write}
use superflow_api.Stock.Movements.{find_or_create}

pub record CreatePoItemDto : Type 0 where
  pub id : ℕ  -- what `uuidv4` returns for the item
  pub part_id : ℕ
  pub ordered_qty : ℤ
  pub unit_cost : Option ℤ

-- `totalCost`, in cents
unfoldable pub total_cost : List CreatePoItemDto → ℤ
total_cost [] = pos 0
total_cost (i ∷ items) = or_else i.unit_cost (pos 0) *ℤ i.ordered_qty +ℤ total_cost items

unfoldable pub new_items : ℕ → List CreatePoItemDto → List PoItem
new_items po [] = []
new_items po (i ∷ items) =
    record {
      id = i.id;
      purchase_order_id = po;
      part_id = i.part_id;
      ordered_qty = i.ordered_qty;
      received_qty = pos 0;
      unit_cost = i.unit_cost;
    }
    ∷ new_items po items

-- `create`
unfoldable pub create_po : ℕ → Option ℕ → List CreatePoItemDto → Db → PurchaseOrder × Db
create_po id supplier items db =
    let total = total_cost items in
    let po : PurchaseOrder = record {
      id = id;
      supplier_id = supplier;
      status = draft;
      total_cost = if ltb_ℤ (pos 0) total then some total else none;
    } in
    (
      po,
      record db {
        purchase_orders = po ∷ db.purchase_orders;
        po_items = new_items id items ++ db.po_items;
      },
    )

abbrev pub find_po : ℕ → List PurchaseOrder → Option PurchaseOrder
find_po id = find_first (λ po. po.id == id)

abbrev pub find_po_item : ℕ → List PoItem → Option PoItem
find_po_item id = find_first (λ i. i.id == id)

abbrev pub set_po_status : ℕ → PoStatus → List PurchaseOrder → List PurchaseOrder
set_po_status id status = update_where (λ po. po.id == id) (λ po. record po { status = status })

-- `validTransitions[from].includes(to)`
unfoldable pub allows : PoStatus → PoStatus → Bool
allows draft ordered = true
allows draft cancelled = true
allows ordered partially_received = true
allows ordered received = true
allows ordered cancelled = true
allows partially_received received = true
allows partially_received cancelled = true
allows _ _ = false

-- `updateStatus`
unfoldable pub update_status : ℕ → PoStatus → Db → Result Reason (Unit {0} × Db)
update_status id status db = do
  po ← or_throw (find_po id db.purchase_orders) (not_found po_missing)
  throw_if (not (allows po.status status)) (bad_request bad_po_transition)
  ok (tt, record db { purchase_orders = set_po_status id status db.purchase_orders })

abbrev pub is_received : PoStatus → Bool
is_received received = true
is_received _ = false

-- `cancel`
unfoldable pub cancel_po : ℕ → Db → Result Reason (Unit {0} × Db)
cancel_po id db = do
  po ← or_throw (find_po id db.purchase_orders) (not_found po_missing)
  throw_if (is_received po.status) (bad_request po_fully_received)
  ok (tt, record db { purchase_orders = set_po_status id cancelled db.purchase_orders })

abbrev pub is_open : PoStatus → Bool
is_open ordered = true
is_open partially_received = true
is_open _ = false

abbrev warehouse_ids : Option Warehouse → Option ℕ
warehouse_ids none = none
warehouse_ids (some w) = some w.id

abbrev first_some : Option ℕ → Option ℕ → Option ℕ
first_some none b = b
first_some (some a) _ = some a

-- The warehouse of a receipt: the one asked for, else the default one, else any.
unfoldable pub receiving_warehouse : Option ℕ → List Warehouse → Option ℕ
receiving_warehouse asked warehouses = first_some asked (
    first_some (warehouse_ids (find_first (λ w. w.is_default) warehouses))
      (warehouse_ids (find_first (λ w. true) warehouses)))

abbrev pub items_of : ℕ → List PoItem → List PoItem
items_of po = keep_if (λ i. i.purchase_order_id == po)

abbrev pub is_full : PoItem → Bool
is_full i = leb_ℤ i.ordered_qty i.received_qty

-- `newStatus`
unfoldable pub receipt_status : PoStatus → List PoItem → PoStatus
receipt_status status items =
    if all is_full items
    then received
    else if any (λ i. ltb_ℤ (pos 0) i.received_qty) items
    then partially_received
    else status

abbrev pub set_received : ℕ → ℤ → List PoItem → List PoItem
set_received id n = update_where (λ i. i.id == id) (λ i. record i { received_qty = n })

pub record ReceivePoItemDto : Type 0 where
  pub received_qty : ℤ
  pub warehouse_id : Option ℕ

-- `receiveItem`. The status is written where it differs, which is the same as to write it.
unfoldable pub receive_item :
    ℕ → ℕ → ℕ → ReceivePoItemDto → ℕ → Db → Result Reason ((ℤ × PoStatus) × Db)
receive_item row_id movement_id item_id dto user db = do
  item ← or_throw (find_po_item item_id db.po_items) (not_found po_item_missing)
  po ← or_throw (find_po item.purchase_order_id db.purchase_orders) (not_found po_missing)
  throw_if (not (is_open po.status)) (bad_request po_not_open)
  warehouse ←
      or_throw (receiving_warehouse dto.warehouse_id db.warehouses) (bad_request no_warehouse)
  let total = item.received_qty +ℤ dto.received_qty
  throw_if (ltb_ℤ item.ordered_qty total) (bad_request over_receipt)
  let items = set_received item_id total db.po_items
  let found = find_or_create row_id item.part_id warehouse db.inventory
  let movement : Movement = record {
    id = movement_id;
    part_id = item.part_id;
    warehouse_id = warehouse;
    kind = purchase_in;
    quantity = dto.received_qty;
    unit_cost = item.unit_cost;
    reference = by_purchase_order po.id;
    notes = some received_from_po;
    created_by = user;
  }
  let status = receipt_status po.status (items_of po.id items)
  ok (
    (total, status),
    record db {
      po_items = items;
      inventory =
          write (found.0).id ((found.0).quantity_on_hand +ℤ dto.received_qty)
            (found.0).reserved_quantity found.1;
      movements = movement ∷ db.movements;
      purchase_orders = set_po_status po.id status db.purchase_orders;
    },
  )
