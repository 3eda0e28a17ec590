-- ===== src/Stock/Orders.antt =====
-- Purchase orders over a history of calls: the calls on the inventory and on job parts touch none.
pub mod Receipts
pub mod Final
use superflow_api.Base.{
  ℕ, ◌≡◌, refl, sym, ap, subst, ◌∙◌, inl, inr, Bool, true, false, ◌&&◌, ◌||◌, not, Option, none,
  some, List, [], ◌∷◌, ◌++◌, arith, ◌==◌, ==_iff, if◌then◌else◌, find_first, update_where, all, ok,
  ok_inj, after, Keeps, Keeps-bind, >>=-eq-ok, or_throw-eq-ok, throw_if-eq-ok, Bool-cases,
  Option-cases, is_some,
}
use superflow_api.Base.Int.{ℤ, pos, ◌+ℤ◌, ◌-ℤ◌, ltb_ℤ, leb_ℤ, int_laws, +ℤ_parts}
use superflow_api.Stock.Types.{
  Db, JobPart, Note, PartStatus, PurchaseOrder, PoItem, PoStatus, draft, ordered,
  partially_received, received, cancelled,
}
use superflow_api.Stock.Adjust.{AdjustStockDto, TransferStockDto, adjust_stock, transfer_stock}
use superflow_api.Stock.JobParts.{
  reserve_existing_for_job, consume_for_job, return_for_job, cancel_reservation, consume_at,
  release_at, cancel_at,
}
use superflow_api.Stock.Purchase.{
  CreatePoItemDto, ReceivePoItemDto, create_po, update_status, cancel_po, receive_item, find_po,
  find_po_item, new_items, allows, is_open, set_received, set_po_status, is_received,
  receipt_status,
}
use superflow_api.Stock.Calls.{
  Call, adjusts, transfers, reserves, cancels, consumes, returns, orders, updates_order,
  cancels_order, receives, step, run,
}

-- The calls on the inventory and on job parts touch no order.
abbrev pub SameOrders : Db → Db → Type 0
SameOrders db s = (s.po_items ≡ db.po_items) × (s.purchase_orders ≡ db.purchase_orders)

same : (db : Db) → SameOrders db db
same db = (refl, refl)

adjust_stock-SameOrders :
    (row movement : ℕ) (dto : AdjustStockDto) (user : ℕ) (db : Db)
    → Keeps (SameOrders db) db (adjust_stock row movement dto user db)
unfolding adjust_stock
adjust_stock-SameOrders row movement dto user db =
    Keeps-bind _ _ (same db) λ _ _. Keeps-bind _ _ (same db) λ _ _. record { holds = (refl, refl) }

transfer_stock-SameOrders :
    (row o i : ℕ) (dto : TransferStockDto) (user : ℕ) (db : Db)
    → Keeps (SameOrders db) db (transfer_stock row o i dto user db)
unfolding transfer_stock
transfer_stock-SameOrders row o i dto user db = Keeps-bind _ _ (same db) λ _ _.
    Keeps-bind _ _ (same db) λ _ _.
      Keeps-bind _ _ (same db)
        λ _ _. Keeps-bind _ _ (same db) λ _ _. record { holds = (refl, refl) }

reserve-SameOrders :
    (movement id user : ℕ) (db : Db)
    → Keeps (SameOrders db) db (reserve_existing_for_job movement id user db)
unfolding reserve_existing_for_job
reserve-SameOrders movement id user db = Keeps-bind _ _ (same db) λ _ _.
    Keeps-bind _ _ (same db) λ _ _. Keeps-bind _ _ (same db) λ _ _. Keeps-bind _ _ (same db) λ _ _.
      Keeps-bind _ _ (same db) λ _ _.
        Keeps-bind _ _ (same db)
          λ _ _. Keeps-bind _ _ (same db) λ _ _. record { holds = (refl, refl) }

consume_at-SameOrders :
    (movement : ℕ) (j : JobPart) (q : ℤ) (user : ℕ) (db : Db) (key : Option (ℕ × ℕ))
    → Keeps (SameOrders db) db (consume_at movement j q user db key)
unfolding consume_at
consume_at-SameOrders movement j q user db none = record { holds = (refl, refl) }
consume_at-SameOrders movement j q user db (some (part, warehouse)) =
    Keeps-bind _ _ (same db) λ _ _. record { holds = (refl, refl) }

consume-SameOrders :
    (movement id user : ℕ) (q : Option ℤ) (db : Db)
    → Keeps (SameOrders db) db (consume_for_job movement id user q db)
unfolding consume_for_job
consume-SameOrders movement id user q db = Keeps-bind _ _ (same db) λ j _.
    Keeps-bind _ _ (same db) λ _ _.
      Keeps-bind _ _ (same db)
        λ _ _. Keeps-bind _ _ (same db) λ _ _. consume_at-SameOrders movement j _ user db _

release_at-SameOrders :
    (movement : ℕ) (j : JobPart) (q : ℤ) (note : Note) (status : PartStatus) (user : ℕ) (db : Db)
    (key : ℕ × ℕ)
    → Keeps (SameOrders db) db (release_at movement j q note status user db key)
unfolding release_at
release_at-SameOrders movement j q note status user db (part, warehouse) =
    Keeps-bind _ _ (same db) λ _ _. record { holds = (refl, refl) }

return-SameOrders :
    (movement id user : ℕ) (q : Option ℤ) (db : Db)
    → Keeps (SameOrders db) db (return_for_job movement id user q db)
unfolding return_for_job
return-SameOrders movement id user q db = Keeps-bind _ _ (same db) λ j _.
    Keeps-bind _ _ (same db) λ _ _.
      Keeps-bind _ _ (same db)
        λ key _. Keeps-bind _ _ (same db) λ _ _. release_at-SameOrders movement j _ _ _ user db key

cancel_at-SameOrders :
    (movement : ℕ) (j : JobPart) (user : ℕ) (db : Db) (is_memo : Bool) (key : Option (ℕ × ℕ))
    → Keeps (SameOrders db) db (cancel_at movement j user db is_memo key)
unfolding cancel_at
cancel_at-SameOrders movement j user db true key = record { holds = (refl, refl) }
cancel_at-SameOrders movement j user db false none = record { holds = (refl, refl) }
cancel_at-SameOrders movement j user db false (some key) =
    release_at-SameOrders movement j _ _ _ user db key

cancel-SameOrders :
    (movement id user : ℕ) (db : Db)
    → Keeps (SameOrders db) db (cancel_reservation movement id user db)
unfolding cancel_reservation
cancel-SameOrders movement id user db =
    Keeps-bind _ _ (same db)
      λ j _. Keeps-bind _ _ (same db) λ _ _. cancel_at-SameOrders movement j user db _ _

-- What a call on the inventory or on a job part leaves.
abbrev pub touches_orders : Call → Bool
touches_orders (orders _ _ _) = true
touches_orders (updates_order _ _) = true
touches_orders (cancels_order _) = true
touches_orders (receives _ _ _ _ _) = true
touches_orders _ = false

pub step-SameOrders : (c : Call) (db : Db) → touches_orders c ≡ false → SameOrders db (step db c)
unfolding step
step-SameOrders (adjusts r m dto u) db h = (adjust_stock-SameOrders r m dto u db).holds
step-SameOrders (transfers r o i dto u) db h = (transfer_stock-SameOrders r o i dto u db).holds
step-SameOrders (reserves m id u) db h = (reserve-SameOrders m id u db).holds
step-SameOrders (cancels m id u) db h = (cancel-SameOrders m id u db).holds
step-SameOrders (consumes m id u q) db h = (consume-SameOrders m id u q db).holds
step-SameOrders (returns m id u q) db h = (return-SameOrders m id u q db).holds
step-SameOrders (orders _ _ _) db h = cc
step-SameOrders (updates_order _ _) db h = cc
step-SameOrders (cancels_order _) db h = cc
step-SameOrders (receives _ _ _ _ _) db h = cc
