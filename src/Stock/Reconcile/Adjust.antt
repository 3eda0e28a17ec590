-- ===== src/Stock/Reconcile/Adjust.antt =====
-- Adjustments and transfers record what they change.
use superflow_api.Base.{
  ℕ, ◌≡◌, refl, sym, false, some, List, arith, ◌==◌, ok, Keeps, Keeps-bind, or_throw-eq-ok,
  throw_if-eq-ok,
}
use superflow_api.Base.Int.{ℤ, ◌+ℤ◌, +ℤ_zero}
use superflow_api.Stock.Types.{Db, Inventory, Movement}
use superflow_api.Stock.Table.{stock_at, write, IsFresh, stock_at-write_keyed}
use superflow_api.Stock.Movements.{find_or_create}
use superflow_api.Stock.Adjust.{
  AdjustStockDto, TransferStockDto, AdjustmentType, adjusts_in, adjusts_out, adjusted,
  adjustment_type, adjust_stock, transfer_stock,
}
use superflow_api.Stock.Ledger.{
  on_hand_effect, reserved_effect, Reconciled, Reconciles, write-Reconciled,
  find_or_create-Reconciled, find_or_create-keeps,
}
use superflow_api.Stock.Reconcile.{sub-eq-add}

adjusted-effect :
    (k : AdjustmentType) (h q n : ℤ)
    → adjusted k h q ≡ ok n
    → n ≡ h +ℤ on_hand_effect (adjustment_type k) q
adjusted-effect adjusts_in h q n e = ground arith
adjusted-effect adjusts_out h q n e = ground (arith, sub-eq-add h q)

adjustment-reserved :
    (k : AdjustmentType) (v q : ℤ) → v ≡ v +ℤ reserved_effect (adjustment_type k) q
adjustment-reserved adjusts_in v q = sym (+ℤ_zero v)
adjustment-reserved adjusts_out v q = sym (+ℤ_zero v)

pub adjust_stock-Reconciles :
    (row movement : ℕ) (dto : AdjustStockDto) (user : ℕ) (db : Db)
    → IsFresh row db.inventory
    → Reconciles db
    → Keeps Reconciles db (adjust_stock row movement dto user db)
unfolding adjust_stock
adjust_stock-Reconciles row movement dto user db fresh ledger = Keeps-bind _ _ ledger λ part _.
    Keeps-bind _ _ ledger λ on_hand e.
      let (ledger', found) =
        find_or_create-Reconciled db.inventory db.movements ledger row dto.part_id dto.warehouse_id
          fresh in
      record {
        holds =
            write-Reconciled _ _ ledger' dto.part_id dto.warehouse_id _ on_hand _ _ found refl refl
              (adjusted-effect dto.kind _ dto.quantity on_hand e)
              (adjustment-reserved dto.kind _ dto.quantity);
      }

-- Both rows of a transfer are there when they are written, and they are two.
transfer-rows :
    (row : ℕ) (dto : TransferStockDto) (rows : List Inventory) (log : List Movement)
    (source : Inventory) (h : ℤ)
    → (dto.from_warehouse_id == dto.to_warehouse_id) ≡ false
    → stock_at dto.part_id dto.from_warehouse_id rows ≡ some source
    → IsFresh row rows
    → Reconciled rows log
    → let found = find_or_create row dto.part_id dto.to_warehouse_id rows in
      stock_at dto.part_id dto.to_warehouse_id (write source.id h source.reserved_quantity found.1)
      ≡ some found.0
transfer-rows row dto rows log source h apart at_source fresh ledger =
    let (ledger', found) =
      find_or_create-Reconciled rows log ledger row dto.part_id dto.to_warehouse_id fresh in
    let kept =
      find_or_create-keeps row dto.part_id dto.to_warehouse_id dto.part_id dto.from_warehouse_id
        rows source at_source in
    rw (stock_at-write_keyed _ _ dto.part_id dto.to_warehouse_id h _ _ source ledger'.keyed kept)
      (ground (arith, found))

pub transfer_stock-Reconciles :
    (row out_id in_id : ℕ) (dto : TransferStockDto) (user : ℕ) (db : Db)
    → IsFresh row db.inventory
    → Reconciles db
    → Keeps Reconciles db (transfer_stock row out_id in_id dto user db)
unfolding transfer_stock
transfer_stock-Reconciles row out_id in_id dto user db fresh ledger =
    Keeps-bind _ _ ledger λ _ apart. Keeps-bind _ _ ledger λ part _.
      Keeps-bind _ _ ledger λ source e. Keeps-bind _ _ ledger λ _ _.
        let at_source = or_throw-eq-ok _ _ e in
        let ledger' =
          (find_or_create-Reconciled db.inventory db.movements ledger row dto.part_id
            dto.to_warehouse_id fresh).0 in
        let kept =
          find_or_create-keeps row dto.part_id dto.to_warehouse_id dto.part_id dto.from_warehouse_id
            _ _ at_source in
        record {
          holds =
              write-Reconciled _ _
                (write-Reconciled _ _ ledger' dto.part_id dto.from_warehouse_id source _ _ _ kept
                  refl refl (sub-eq-add _ _) (sym (+ℤ_zero _)))
                dto.part_id dto.to_warehouse_id _ _ _ _
                (transfer-rows row dto db.inventory db.movements source _ (throw_if-eq-ok _ _ apart)
                  at_source fresh ledger)
                refl refl refl (sym (+ℤ_zero _));
        }
