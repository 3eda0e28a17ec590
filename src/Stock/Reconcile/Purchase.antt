-- ===== src/Stock/Reconcile/Purchase.antt =====
-- Receipts record what they add, and an order's status touches no stock.
use superflow_api.Base.{ℕ, refl, sym, Keeps, Keeps-bind}
use superflow_api.Base.Int.{+ℤ_zero}
use superflow_api.Stock.Types.{Db, PoStatus}
use superflow_api.Stock.Table.{IsFresh}
use superflow_api.Stock.Purchase.{ReceivePoItemDto, update_status, cancel_po, receive_item}
use superflow_api.Stock.Ledger.{Reconciles, write-Reconciled, find_or_create-Reconciled}

pub receive_item-Reconciles :
    (row movement item : ℕ) (dto : ReceivePoItemDto) (user : ℕ) (db : Db)
    → IsFresh row db.inventory
    → Reconciles db
    → Keeps Reconciles db (receive_item row movement item dto user db)
unfolding receive_item
receive_item-Reconciles row movement item dto user db fresh ledger = Keeps-bind _ _ ledger λ item _.
    Keeps-bind _ _ ledger λ po _. Keeps-bind _ _ ledger λ _ _. Keeps-bind _ _ ledger λ warehouse _.
      Keeps-bind _ _ ledger λ _ _.
        let (ledger', found) =
          find_or_create-Reconciled db.inventory db.movements ledger row item.part_id warehouse
            fresh in
        record {
          holds =
              write-Reconciled _ _ ledger' item.part_id warehouse _ _ _ _ found refl refl refl
                (sym (+ℤ_zero _));
        }

-- A change of an order's status touches no stock.
pub update_status-Reconciles :
    (id : ℕ) (status : PoStatus) (db : Db)
    → Reconciles db
    → Keeps Reconciles db (update_status id status db)
unfolding update_status
update_status-Reconciles id status db ledger =
    Keeps-bind _ _ ledger λ po _. Keeps-bind _ _ ledger λ _ _. record { holds = ledger }

pub cancel_po-Reconciles :
    (id : ℕ) (db : Db) → Reconciles db → Keeps Reconciles db (cancel_po id db)
unfolding cancel_po
cancel_po-Reconciles id db ledger =
    Keeps-bind _ _ ledger λ po _. Keeps-bind _ _ ledger λ _ _. record { holds = ledger }
