-- ===== src/Stock/Orders/Receipts.antt =====
-- What is received of an order (src/purchase-orders/purchase-orders.service.ts).
use superflow_api.Base.{
  ℕ, ◌≡◌, refl, sym, subst, inl, inr, Bool, true, false, ◌&&◌, Option, none, some, List, [], ◌∷◌,
  ◌++◌, arith, ◌==◌, if◌then◌else◌, all, Keeps, Keeps-bind, or_throw-eq-ok, throw_if-eq-ok,
  Option-cases,
}
use superflow_api.Base.Int.{ℤ, pos, leb_ℤ, +ℤ_parts}
use superflow_api.Stock.Types.{Db, PoItem, PoStatus}
use superflow_api.Stock.Purchase.{
  CreatePoItemDto, ReceivePoItemDto, create_po, update_status, cancel_po, receive_item,
  find_po_item, new_items, set_received,
}
use superflow_api.Stock.Calls.{
  Call, adjusts, transfers, reserves, cancels, consumes, returns, orders, updates_order,
  cancels_order, receives, step, run,
}
use superflow_api.Stock.Orders.{touches_orders, step-SameOrders}

-- An item is received in part or in full, never beyond what was ordered.
abbrev pub is_within : PoItem → Bool
is_within i = leb_ℤ (pos 0) i.received_qty && leb_ℤ i.received_qty i.ordered_qty

abbrev pub AreWithin : List PoItem → Type 0
AreWithin items = (id : ℕ) (i : PoItem) → find_po_item id items ≡ some i → is_within i ≡ true

-- The orders and receipts of a history are of no negative quantity (`@Min(1)` in the DTOs).
abbrev pub is_natural : Call → Bool
is_natural (orders _ _ items) = all (λ i. leb_ℤ (pos 0) i.ordered_qty) items
is_natural (receives _ _ _ dto _) = leb_ℤ (pos 0) dto.received_qty
is_natural _ = true

abbrev map_item : (PoItem → PoItem) → Option PoItem → Option PoItem
map_item f none = none
map_item f (some i) = some (f i)

abbrev received_now : ℕ → ℤ → PoItem → PoItem
received_now id n i = if i.id == id then record i { received_qty = n } else i

find_po_item-set_received :
    (i id : ℕ) (n : ℤ) (items : List PoItem)
    → find_po_item i (set_received id n items) ≡ map_item (received_now id n) (find_po_item i items)
find_po_item-set_received i id n [] = refl
find_po_item-set_received i id n (x ∷ items) =
    ground (arith, find_po_item-set_received i id n items)

find_po_item-id :
    (id : ℕ) (items : List PoItem) (i : PoItem) → find_po_item id items ≡ some i → i.id ≡ id
find_po_item-id id [] i e = cc
find_po_item-id id (x ∷ items) i e = ground (arith, find_po_item-id id items i)

new_items-AreWithin :
    (po : ℕ) (dtos : List CreatePoItemDto) (items : List PoItem)
    → all (λ i. leb_ℤ (pos 0) i.ordered_qty) dtos ≡ true
    → AreWithin items
    → AreWithin (new_items po dtos ++ items)
unfolding new_items
new_items-AreWithin po [] items h within id i e = within id i e
new_items-AreWithin po (d ∷ dtos) items h within id i e =
    ground (arith, new_items-AreWithin po dtos items (ground arith) within id i)

set_received-AreWithin :
    (id : ℕ) (n : ℤ) (items : List PoItem) (item : PoItem)
    → find_po_item id items ≡ some item
    → leb_ℤ (pos 0) n ≡ true
    → leb_ℤ n item.ordered_qty ≡ true
    → AreWithin items
    → AreWithin (set_received id n items)
set_received-AreWithin id n items item found low high within i x e =
    elim (Option-cases (find_po_item i items)) [
      | inl missing ↦ ground (arith, find_po_item-set_received i id n items)
      | inr (y, at) ↦ ground (
        arith,
        find_po_item-set_received i id n items,
        within i y at,
        find_po_item-id i items y at,
      )
    ]

receive_item-AreWithin :
    (row movement id : ℕ) (dto : ReceivePoItemDto) (user : ℕ) (db : Db)
    → leb_ℤ (pos 0) dto.received_qty ≡ true
    → AreWithin db.po_items
    → Keeps (λ s. AreWithin s.po_items) db (receive_item row movement id dto user db)
unfolding receive_item
receive_item-AreWithin row movement id dto user db natural within =
    Keeps-bind _ _ within λ item found. Keeps-bind _ _ within λ _ _. Keeps-bind _ _ within λ _ _.
      Keeps-bind _ _ within λ _ _. Keeps-bind _ _ within λ _ guard.
        let at = or_throw-eq-ok _ _ found in
        record {
          holds =
              set_received-AreWithin id _ db.po_items item at
                (ground (arith, within id item at, +ℤ_parts item.received_qty dto.received_qty))
                (ground (arith, throw_if-eq-ok _ _ guard)) within;
        }

update_status-AreWithin :
    (id : ℕ) (status : PoStatus) (db : Db)
    → AreWithin db.po_items
    → Keeps (λ s. AreWithin s.po_items) db (update_status id status db)
unfolding update_status
update_status-AreWithin id status db within =
    Keeps-bind _ _ within λ _ _. Keeps-bind _ _ within λ _ _. record { holds = within }

cancel_po-AreWithin :
    (id : ℕ) (db : Db)
    → AreWithin db.po_items
    → Keeps (λ s. AreWithin s.po_items) db (cancel_po id db)
unfolding cancel_po
cancel_po-AreWithin id db within =
    Keeps-bind _ _ within λ _ _. Keeps-bind _ _ within λ _ _. record { holds = within }

same-AreWithin :
    (c : Call) (db : Db)
    → touches_orders c ≡ false
    → AreWithin db.po_items
    → AreWithin (step db c).po_items
same-AreWithin c db h within = subst AreWithin (sym (step-SameOrders c db h).0) within

step-AreWithin :
    (c : Call) (db : Db)
    → is_natural c ≡ true
    → AreWithin db.po_items
    → AreWithin (step db c).po_items
unfolding step create_po
step-AreWithin (orders po supplier items) db h w = new_items-AreWithin po items db.po_items h w
step-AreWithin (updates_order id s) db h w = (update_status-AreWithin id s db w).holds
step-AreWithin (cancels_order id) db h w = (cancel_po-AreWithin id db w).holds
step-AreWithin (receives r m i dto u) db h w = (receive_item-AreWithin r m i dto u db h w).holds
step-AreWithin (adjusts r m dto u) db h w = same-AreWithin (adjusts r m dto u) db refl w
step-AreWithin (transfers r o i dto u) db h w = same-AreWithin (transfers r o i dto u) db refl w
step-AreWithin (reserves m id u) db h w = same-AreWithin (reserves m id u) db refl w
step-AreWithin (cancels m id u) db h w = same-AreWithin (cancels m id u) db refl w
step-AreWithin (consumes m id u q) db h w = same-AreWithin (consumes m id u q) db refl w
step-AreWithin (returns m id u q) db h w = same-AreWithin (returns m id u q) db refl w

-- Over any history of stock calls whose orders and receipts are of no negative quantity, whether
-- they succeed or throw, no item of a purchase order is ever received beyond what was ordered,
-- nor less than nothing, if that is so at the start (with no items, say).
pub run-AreWithin :
    (calls : List Call) (db : Db)
    → all is_natural calls ≡ true
    → AreWithin db.po_items
    → AreWithin (run db calls).po_items
unfolding run
run-AreWithin [] db h w = w
run-AreWithin (c ∷ calls) db h w =
    run-AreWithin calls (step db c) (ground arith) (step-AreWithin c db (ground arith) w)
