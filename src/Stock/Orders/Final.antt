-- ===== src/Stock/Orders/Final.antt =====
-- The statuses in which an order stays (src/purchase-orders/purchase-orders.service.ts).
use superflow_api.Base.{
  ℕ, ◌≡◌, refl, sym, ap, subst, ◌∙◌, inl, inr, Bool, true, false, ◌&&◌, not, Option, none, some,
  List, [], ◌∷◌, arith, ◌==◌, ==_iff, Keeps, Keeps-bind, or_throw-eq-ok, throw_if-eq-ok, Bool-cases,
  is_some,
}
use superflow_api.Stock.Types.{Db, PurchaseOrder, PoStatus, draft, received, cancelled}
use superflow_api.Stock.Purchase.{
  CreatePoItemDto, ReceivePoItemDto, create_po, update_status, cancel_po, receive_item, find_po,
  allows, is_open, set_po_status, is_received,
}
use superflow_api.Stock.Calls.{
  Call, adjusts, transfers, reserves, cancels, consumes, returns, orders, updates_order,
  cancels_order, receives, step, run,
}
use superflow_api.Stock.Orders.{touches_orders, step-SameOrders}

abbrev pub is_settled : PoStatus → Bool
is_settled received = true
is_settled cancelled = true
is_settled _ = false

abbrev status_of_po : Option PurchaseOrder → Option PoStatus
status_of_po none = none
status_of_po (some po) = some po.status

abbrev pub po_status : ℕ → List PurchaseOrder → Option PoStatus
po_status id rows = status_of_po (find_po id rows)

find_po-id :
    (id : ℕ) (rows : List PurchaseOrder) (po : PurchaseOrder)
    → find_po id rows ≡ some po
    → po.id ≡ id
find_po-id id [] po e = cc
find_po-id id (x ∷ rows) po e = ground (arith, find_po-id id rows po)

po_status-other :
    (i id : ℕ) (s : PoStatus) (rows : List PurchaseOrder)
    → (i == id) ≡ false
    → po_status i (set_po_status id s rows) ≡ po_status i rows
po_status-other i id s [] apart = refl
po_status-other i id s (x ∷ rows) apart = ground (arith, po_status-other i id s rows apart)

po_status-same :
    (id : ℕ) (s : PoStatus) (rows : List PurchaseOrder) (po : PurchaseOrder)
    → find_po id rows ≡ some po
    → po_status id (set_po_status id s rows) ≡ some s
po_status-same id s [] po e = cc
po_status-same id s (x ∷ rows) po e = ground (arith, po_status-same id s rows po)

-- A settled order allows no change of its status, and no receipt.
settled_allows : (s t : PoStatus) → is_settled s ≡ true → (allows s t ≡ false) × (is_open s ≡ false)
unfolding allows
settled_allows received t h = (refl, refl)
settled_allows cancelled t h = (refl, refl)
settled_allows _ t h = cc

module _ (id : ℕ) (st : PoStatus) (settled : is_settled st ≡ true) where
  abbrev Stays : Db → Type 0
  Stays db = po_status id db.purchase_orders ≡ some st

  -- The order of the id has the settled status.
  found-settled :
      (i : ℕ) (db : Db) (po : PurchaseOrder)
      → Stays db
      → (id == i) ≡ true
      → find_po i db.purchase_orders ≡ some po
      → po.status ≡ st
  found-settled i db po h here found = ground (
    arith,
    h,
    subst (λ n. find_po n db.purchase_orders ≡ some po) (sym ((==_iff id i).0 here)) found,
  )

  elsewhere-Stays :
      (i : ℕ) (s : PoStatus) (db : Db)
      → Stays db
      → (id == i) ≡ false
      → po_status id (set_po_status i s db.purchase_orders) ≡ some st
  elsewhere-Stays i s db h elsewhere = po_status-other id i s db.purchase_orders elsewhere ∙ h

  update_status-Stays :
      (i : ℕ) (s : PoStatus) (db : Db) → Stays db → Keeps Stays db (update_status i s db)
  unfolding update_status
  update_status-Stays i s db h = Keeps-bind _ _ h λ po found. Keeps-bind _ _ h λ _ guard. record {
    holds = elim (Bool-cases (id == i)) [
      | inl here ↦
          let refused =
            subst (λ t. is_settled t ≡ true)
              (sym (found-settled i db po h here (or_throw-eq-ok _ _ found))) settled in
          cc ((settled_allows po.status s refused).0, throw_if-eq-ok _ _ guard)
      | inr elsewhere ↦ elsewhere-Stays i s db h elsewhere
    ];
  }

  -- An order that may still be cancelled is not received, and a cancelled one is cancelled again.
  cancels_again : (s : PoStatus) → is_settled s ≡ true → is_received s ≡ false → s ≡ cancelled
  cancels_again received h e = cc
  cancels_again cancelled h e = refl
  cancels_again _ h e = cc

  cancel_po-Stays : (i : ℕ) (db : Db) → Stays db → Keeps Stays db (cancel_po i db)
  unfolding cancel_po
  cancel_po-Stays i db h = Keeps-bind _ _ h λ po found. Keeps-bind _ _ h λ _ guard. record {
    holds = elim (Bool-cases (id == i)) [
      | inl here ↦
          let at = found-settled i db po h here (or_throw-eq-ok _ _ found) in
          let own =
            subst (λ n. find_po n db.purchase_orders ≡ some po) (sym ((==_iff id i).0 here))
              (or_throw-eq-ok _ _ found) in
          let refused = subst (λ t. is_settled t ≡ true) (sym at) settled in
          let is_cancelled = cancels_again po.status refused (throw_if-eq-ok _ _ guard) in
          subst (λ n. po_status id (set_po_status n cancelled db.purchase_orders) ≡ some st)
            ((==_iff id i).0 here)
            (po_status-same id cancelled db.purchase_orders po own
              ∙ ap some (sym is_cancelled ∙ at))
      | inr elsewhere ↦ elsewhere-Stays i cancelled db h elsewhere
    ];
  }

  receive_item-Stays :
      (row movement item : ℕ) (dto : ReceivePoItemDto) (user : ℕ) (db : Db)
      → Stays db
      → Keeps Stays db (receive_item row movement item dto user db)
  unfolding receive_item
  receive_item-Stays row movement item dto user db h = Keeps-bind _ _ h λ item _.
      Keeps-bind _ _ h λ po found. Keeps-bind _ _ h λ _ guard. Keeps-bind _ _ h λ _ _.
        Keeps-bind _ _ h λ _ _. record {
          holds = elim (Bool-cases (id == item.purchase_order_id)) [
            | inl here ↦
                let at =
                  found-settled item.purchase_order_id db po h here (or_throw-eq-ok _ _ found) in
                let refused = subst (λ t. is_settled t ≡ true) (sym at) settled in
                cc ((settled_allows po.status draft refused).1, throw_if-eq-ok _ _ guard)
            | inr elsewhere ↦ elsewhere-Stays po.id _ db h (
                subst (λ n. (id == n) ≡ false) (sym (find_po-id _ _ po (or_throw-eq-ok _ _ found)))
                  elsewhere)
          ];
        }

-- A call that creates an order gives it an id that no order has.
abbrev pub orders_anew : Db → Call → Bool
orders_anew db (orders id _ _) = not (is_some (find_po id db.purchase_orders))
orders_anew db _ = true

unfoldable pub all_order_anew : Db → List Call → Bool
all_order_anew db [] = true
all_order_anew db (c ∷ calls) = orders_anew db c && all_order_anew (step db c) calls

module _ (id : ℕ) (st : PoStatus) (settled : is_settled st ≡ true) where
  create_po-Stays :
      (i : ℕ) (supplier : Option ℕ) (items : List CreatePoItemDto) (db : Db)
      → is_some (find_po i db.purchase_orders) ≡ false
      → Stays id st settled db
      → Stays id st settled (create_po i supplier items db).1
  unfolding create_po
  create_po-Stays i supplier items db anew h = elim (Bool-cases (i == id)) [
    | inl here ↦ ground (
      arith,
      anew,
      h,
      subst (λ n. is_some (find_po n db.purchase_orders) ≡ false) ((==_iff i id).0 here) anew,
    )
    | inr elsewhere ↦ ground (arith, h, elsewhere)
  ]

  same-Stays :
      (c : Call) (db : Db)
      → touches_orders c ≡ false
      → Stays id st settled db
      → Stays id st settled (step db c)
  same-Stays c db h stays =
      subst (λ rows. po_status id rows ≡ some st) (sym (step-SameOrders c db h).1) stays

  step-Stays :
      (c : Call) (db : Db)
      → orders_anew db c ≡ true
      → Stays id st settled db
      → Stays id st settled (step db c)
  unfolding step
  step-Stays (orders i supplier items) db h s = create_po-Stays i supplier items db (ground arith) s
  step-Stays (updates_order i t) db h s = (update_status-Stays id st settled i t db s).holds
  step-Stays (cancels_order i) db h s = (cancel_po-Stays id st settled i db s).holds
  step-Stays (receives r m i dto u) db h s =
      (receive_item-Stays id st settled r m i dto u db s).holds
  step-Stays (adjusts r m dto u) db h s = same-Stays (adjusts r m dto u) db refl s
  step-Stays (transfers r o i dto u) db h s = same-Stays (transfers r o i dto u) db refl s
  step-Stays (reserves m i u) db h s = same-Stays (reserves m i u) db refl s
  step-Stays (cancels m i u) db h s = same-Stays (cancels m i u) db refl s
  step-Stays (consumes m i u q) db h s = same-Stays (consumes m i u q) db refl s
  step-Stays (returns m i u q) db h s = same-Stays (returns m i u q) db refl s

  -- An order that is received in full or cancelled stays so over any history of stock calls in
  -- which new orders get new ids: no update of the status, no cancellation and no receipt changes
  -- it.
  pub run-po_status :
      (calls : List Call) (db : Db)
      → all_order_anew db calls ≡ true
      → po_status id db.purchase_orders ≡ some st
      → po_status id (run db calls).purchase_orders ≡ some st
  unfolding run all_order_anew
  run-po_status [] db h s = s
  run-po_status (c ∷ calls) db h s =
      run-po_status calls (step db c) (ground arith) (step-Stays c db (ground arith) s)
