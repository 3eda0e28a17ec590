-- ===== src/Stock/Adjust.antt =====
-- `InventoryService.adjustStock` and `transferStock` (src/inventory/inventory.service.ts), with the
-- stock queries of the same service.
use superflow_api.Base.{
  ℕ, String, Bool, false, ◌&&◌, Option, none, some, List, ◌∷◌, ◌==◌, if◌then◌else◌, find_first,
  keep_if, or_else, Result, ok, err, not_found, bad_request, ◌>>=◌, ◌>>◌, throw_if, or_throw,
}
use superflow_api.Base.Int.{ℤ, pos, ◌+ℤ◌, ◌-ℤ◌, ltb_ℤ, leb_ℤ}
use superflow_api.Stock.Types.{
  Db, Part, Inventory, Movement, MovementType, adjustment_in, adjustment_out, transfer_in,
  transfer_out, by_adjustment, by_transfer, transfer_to, transfer_from, Reason, part_missing,
  negative_stock, same_warehouse, no_source_stock, source_short,
}
use superflow_api.Stock.Table.{stock_at, write, with_amounts}
use superflow_api.Stock.Movements.{note_or, nonzero, find_or_create}

-- `AdjustmentType` of dto/adjust-stock.dto.ts
pub data AdjustmentType : Type 0 where
  adjusts_in adjusts_out : AdjustmentType

pub record AdjustStockDto : Type 0 where
  pub part_id : ℕ
  pub warehouse_id : ℕ
  pub quantity : ℤ
  pub kind : AdjustmentType
  pub unit_cost : Option ℤ
  pub notes : Option String

pub record TransferStockDto : Type 0 where
  pub part_id : ℕ
  pub from_warehouse_id : ℕ
  pub to_warehouse_id : ℕ
  pub quantity : ℤ
  pub notes : Option String

abbrev pub find_part : ℕ → List Part → Option Part
find_part id = find_first (λ p. p.id == id)

abbrev pub adjustment_type : AdjustmentType → MovementType
adjustment_type adjusts_in = adjustment_in
adjustment_type adjusts_out = adjustment_out

abbrev refuse_negative : ℤ → Result Reason ℤ
refuse_negative n = if ltb_ℤ n (pos 0) then err (bad_request negative_stock) else ok n

-- `newQuantityOnHand`
abbrev pub adjusted : AdjustmentType → ℤ → ℤ → Result Reason ℤ
adjusted adjusts_in on_hand quantity = ok (on_hand +ℤ quantity)
adjusted adjusts_out on_hand quantity = refuse_negative (on_hand -ℤ quantity)

-- The ids that `uuidv4` returns during a call come first.
unfoldable pub adjust_stock : ℕ → ℕ → AdjustStockDto → ℕ → Db → Result Reason (Inventory × Db)
adjust_stock row_id movement_id dto user db = do
  part ← or_throw (find_part dto.part_id db.parts) (not_found part_missing)
  let found = find_or_create row_id dto.part_id dto.warehouse_id db.inventory
  on_hand ← adjusted dto.kind (found.0).quantity_on_hand dto.quantity
  let row = with_amounts on_hand (found.0).reserved_quantity found.0
  let movement : Movement = record {
    id = movement_id;
    part_id = dto.part_id;
    warehouse_id = dto.warehouse_id;
    kind = adjustment_type dto.kind;
    quantity = dto.quantity;
    unit_cost = nonzero dto.unit_cost;
    reference = by_adjustment row.id;
    notes = note_or dto.notes none;
    created_by = user;
  }
  ok (
    row,
    record db {
      inventory = write row.id on_hand row.reserved_quantity found.1;
      movements = movement ∷ db.movements;
    },
  )

-- One of the two movements of a transfer.
abbrev transfer_movement : ℕ → TransferStockDto → ℕ → MovementType → ℕ → ℕ → Movement
transfer_movement id dto user kind warehouse other_row = record {
  id = id;
  part_id = dto.part_id;
  warehouse_id = warehouse;
  kind = kind;
  quantity = dto.quantity;
  unit_cost = none;
  reference = by_transfer other_row;
  notes = note_or dto.notes (
      some (elim kind [
        | transfer_out ↦ transfer_to dto.to_warehouse_id
        | _ ↦ transfer_from dto.from_warehouse_id
      ]));
  created_by = user;
}

-- The destination's row is found before either row is written.
unfoldable pub transfer_stock :
    ℕ → ℕ → ℕ → TransferStockDto → ℕ → Db → Result Reason (Unit {0} × Db)
transfer_stock row_id out_id in_id dto user db = do
  throw_if (dto.from_warehouse_id == dto.to_warehouse_id) (bad_request same_warehouse)
  part ← or_throw (find_part dto.part_id db.parts) (not_found part_missing)
  source ←
      or_throw (stock_at dto.part_id dto.from_warehouse_id db.inventory)
        (bad_request no_source_stock)
  throw_if (ltb_ℤ source.available_quantity dto.quantity) (bad_request source_short)
  let found = find_or_create row_id dto.part_id dto.to_warehouse_id db.inventory
  let dest = found.0
  let rows =
      write source.id (source.quantity_on_hand -ℤ dto.quantity) source.reserved_quantity found.1
  ok (
    tt,
    record db {
      inventory = write dest.id (dest.quantity_on_hand +ℤ dto.quantity) dest.reserved_quantity rows;
      movements =
          transfer_movement in_id dto user transfer_in dto.to_warehouse_id source.id
          ∷ transfer_movement out_id dto user transfer_out dto.from_warehouse_id dest.id
          ∷ db.movements;
    },
  )

-- `getStockByPart`
unfoldable pub get_stock_by_part : ℕ → Db → List Inventory
get_stock_by_part part_id db = keep_if (λ r. r.part_id == part_id) db.inventory

-- `getLowStock`: rows of an active part with no more available than the part's minimum.
abbrev min_stock_of : Option Part → ℤ
min_stock_of none = pos 0
min_stock_of (some p) = or_else p.min_stock (pos 0)

abbrev is_active_part : Option Part → Bool
is_active_part none = false
is_active_part (some p) = p.is_active

unfoldable pub get_low_stock : Db → List Inventory
get_low_stock db = keep_if low db.inventory
  where
    low : Inventory → Bool
    low r =
        let part = find_part r.part_id db.parts in
        is_active_part part && leb_ℤ r.available_quantity (min_stock_of part)
