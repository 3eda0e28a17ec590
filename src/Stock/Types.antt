-- ===== src/Stock/Types.antt =====
-- The tables that the stock services read and write (prisma/schema.prisma), one workshop's rows:
-- the tenant extension scopes every query. Ids are only compared, so they are numbers; the columns
-- `created_at`, `updated_at` and `workshop_id`, which no stock operation reads, are left out.
use superflow_api.Base.{ℕ, String, Bool, Option, List}
use superflow_api.Base.Int.{ℤ}

pub record Part : Type 0 where
  pub id : ℕ
  pub is_active : Bool
  pub min_stock : Option ℤ

pub record Warehouse : Type 0 where
  pub id : ℕ
  pub is_default : Bool

pub record Inventory : Type 0 where
  pub id : ℕ
  pub part_id : ℕ
  pub warehouse_id : ℕ
  pub quantity_on_hand : ℤ
  pub reserved_quantity : ℤ
  pub available_quantity : ℤ

pub data MovementType : Type 0 where
  purchase_in adjustment_in adjustment_out transfer_in transfer_out : MovementType
  job_reserve job_consume job_return : MovementType

-- `reference_type` with `reference_id`
pub data Reference : Type 0 where
  by_adjustment by_transfer by_job by_purchase_order : ℕ → Reference

-- A movement's `notes`: what the user wrote, or one of the texts of the services.
pub data Note : Type 0 where
  written : String → Note
  transfer_to transfer_from : ℕ → Note
  reserved_for_job consumed_for_job returned_from_job reservation_cancelled : Note
  received_from_po : Note

pub record Movement : Type 0 where
  pub id : ℕ
  pub part_id : ℕ
  pub warehouse_id : ℕ
  pub kind : MovementType
  pub quantity : ℤ
  pub unit_cost : Option ℤ
  pub reference : Reference
  pub notes : Option Note
  pub created_by : ℕ

pub data Source : Type 0 where
  catalog adhoc : Source

pub data PartStatus : Type 0 where
  memo reserved used returned cancelled : PartStatus

pub record JobPart : Type 0 where
  pub id : ℕ
  pub job_id : ℕ
  pub part_id : Option ℕ
  pub source : Source
  pub warehouse_id : Option ℕ
  pub quantity : ℤ
  pub unit_cost : Option ℤ
  pub status : PartStatus

pub data PoStatus : Type 0 where
  draft ordered partially_received received cancelled : PoStatus

pub record PurchaseOrder : Type 0 where
  pub id : ℕ
  pub supplier_id : Option ℕ
  pub status : PoStatus
  pub total_cost : Option ℤ

pub record PoItem : Type 0 where
  pub id : ℕ
  pub purchase_order_id : ℕ
  pub part_id : ℕ
  pub ordered_qty : ℤ
  pub received_qty : ℤ
  pub unit_cost : Option ℤ

-- Rows stand newest first.
pub record Db : Type 0 where
  pub parts : List Part
  pub warehouses : List Warehouse
  pub inventory : List Inventory
  pub movements : List Movement
  pub job_parts : List JobPart
  pub purchase_orders : List PurchaseOrder
  pub po_items : List PoItem

-- The exceptions that the services throw, by message.
pub data Reason : Type 0 where
  part_missing negative_stock same_warehouse no_source_stock source_short : Reason
  job_part_missing only_memo_reserves only_catalog_reserves no_warehouse_selected : Reason
  no_inventory_record insufficient_stock only_memo_or_reserved_consumes : Reason
  reserve_before_consuming consumes_too_much inventory_missing only_reserved_returns : Reason
  adhoc_return returns_too_much only_memo_or_reserved_cancels : Reason
  po_missing po_item_missing bad_po_transition po_not_open no_warehouse over_receipt : Reason
  po_fully_received : Reason
