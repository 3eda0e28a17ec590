-- ===== src/Stock/Ledger.antt =====
-- What the movement log says that a part in a warehouse holds, and when the inventory agrees.
use superflow_api.Base.{
  ℕ, ◌≡◌, refl, inl, inr, Option-cases, ◌&&◌, Option, none, some, List, [], ◌∷◌, arith, ◌==◌,
  if◌then◌else◌,
}
use superflow_api.Base.Int.{ℤ, pos, ◌+ℤ◌, ◌-ℤ◌, +ℤ_zero, -ℤ_zero}
use superflow_api.Stock.Types.{
  Db, Inventory, Movement, MovementType, purchase_in, adjustment_in, adjustment_out, transfer_in,
  transfer_out, job_reserve, job_consume, job_return,
}
use superflow_api.Stock.Table.{
  stock_at, write, empty_row, IsKeyed, IsFresh, stock_at-write_keyed, stock_at-create,
  write-IsKeyed, create-IsKeyed,
}
use superflow_api.Stock.Movements.{find_or_create}

-- What a movement of a type adds to the quantity on hand, and to the reserved one.
abbrev pub on_hand_effect : MovementType → ℤ → ℤ
on_hand_effect purchase_in q = q
on_hand_effect adjustment_in q = q
on_hand_effect adjustment_out q = pos 0 -ℤ q
on_hand_effect transfer_in q = q
on_hand_effect transfer_out q = pos 0 -ℤ q
on_hand_effect job_reserve q = pos 0
on_hand_effect job_consume q = pos 0 -ℤ q
on_hand_effect job_return q = pos 0

abbrev pub reserved_effect : MovementType → ℤ → ℤ
reserved_effect job_reserve q = q
reserved_effect job_consume q = pos 0 -ℤ q
reserved_effect job_return q = pos 0 -ℤ q
reserved_effect _ q = pos 0

-- The sum of the effects of the movements of a part in a warehouse.
abbrev pub net : (MovementType → ℤ → ℤ) → ℕ → ℕ → List Movement → ℤ
net effect p w [] = pos 0
net effect p w (m ∷ log) =
    net effect p w log
    +ℤ (if p == m.part_id && w == m.warehouse_id then effect m.kind m.quantity else pos 0)

abbrev pub on_hand_of : Option Inventory → ℤ
on_hand_of none = pos 0
on_hand_of (some r) = r.quantity_on_hand

abbrev pub reserved_of : Option Inventory → ℤ
reserved_of none = pos 0
reserved_of (some r) = r.reserved_quantity

-- A part that has no row in a warehouse has nothing there.
abbrev pub on_hand_at : List Inventory → ℕ → ℕ → ℤ
on_hand_at rows p w = on_hand_of (stock_at p w rows)

abbrev pub reserved_at : List Inventory → ℕ → ℕ → ℤ
reserved_at rows p w = reserved_of (stock_at p w rows)

abbrev pub IsExact : Option Inventory → Type 0
IsExact none = Unit
IsExact (some r) = r.available_quantity ≡ r.quantity_on_hand -ℤ r.reserved_quantity

-- The log accounts for the inventory.
pub record Reconciled (rows : List Inventory) (log : List Movement) : Type 0 where
  pub on_hand : (p w : ℕ) → on_hand_at rows p w ≡ net on_hand_effect p w log
  pub held : (p w : ℕ) → reserved_at rows p w ≡ net reserved_effect p w log
  pub available : (p w : ℕ) → IsExact (stock_at p w rows)
  pub keyed : IsKeyed rows

module _ (rows : List Inventory) (log : List Movement) (ledger : Reconciled rows log) where
  -- A write of one row, with the movement that has its effects.
  pub write-Reconciled :
      (p w : ℕ) (r : Inventory) (h v : ℤ) (m : Movement)
      → stock_at p w rows ≡ some r
      → m.part_id ≡ p
      → m.warehouse_id ≡ w
      → h ≡ r.quantity_on_hand +ℤ on_hand_effect m.kind m.quantity
      → v ≡ r.reserved_quantity +ℤ reserved_effect m.kind m.quantity
      → Reconciled (write r.id h v rows) (m ∷ log)
  write-Reconciled p w r h v m found ep ew eh ev = record {
    on_hand = λ q x. rw (stock_at-write_keyed p w q x h v rows r ledger.keyed found) (
        ground (
          arith,
          found,
          ledger.on_hand q x,
          ledger.on_hand p w,
          +ℤ_zero (net on_hand_effect q x log),
        ));
    held = λ q x. rw (stock_at-write_keyed p w q x h v rows r ledger.keyed found) (
        ground
          (arith, found, ledger.held q x, ledger.held p w, +ℤ_zero (net reserved_effect q x log)));
    available = λ q x.
        rw (stock_at-write_keyed p w q x h v rows r ledger.keyed found)
          (ground (arith, ledger.available q x));
    keyed = write-IsKeyed rows ledger.keyed r.id h v;
  }

  pub create-Reconciled :
      (id p w : ℕ)
      → stock_at p w rows ≡ none
      → IsFresh id rows
      → Reconciled (empty_row id p w ∷ rows) log
  create-Reconciled id p w missing fresh = record {
    on_hand =
        λ q x. rw (stock_at-create id p w q x rows) (ground (arith, missing, ledger.on_hand q x));
    held = λ q x. rw (stock_at-create id p w q x rows) (ground (arith, missing, ledger.held q x));
    available = λ q x.
        rw (stock_at-create id p w q x rows)
          (ground (arith, -ℤ_zero (pos 0), ledger.available q x));
    keyed = create-IsKeyed rows ledger.keyed id p w fresh;
  }

  -- The row that an operation works on is there, and to find or create it changes no quantity.
  pub find_or_create-Reconciled :
      (id p w : ℕ)
      → IsFresh id rows
      → Reconciled (find_or_create id p w rows).1 log
        × (stock_at p w (find_or_create id p w rows).1 ≡ some (find_or_create id p w rows).0)
  unfolding find_or_create
  find_or_create-Reconciled id p w fresh = elim (Option-cases (stock_at p w rows)) [
    | inl missing ↦
        rw missing
          (create-Reconciled id p w missing fresh, ground (arith, stock_at-create id p w p w rows))
    | inr (r, found) ↦ rw found (ledger, found)
  ]

-- To find or create one row leaves every row that is there.
pub find_or_create-keeps :
    (id p w q x : ℕ) (rows : List Inventory) (s : Inventory)
    → stock_at q x rows ≡ some s
    → stock_at q x (find_or_create id p w rows).1 ≡ some s
unfolding find_or_create
find_or_create-keeps id p w q x rows s e = elim (Option-cases (stock_at p w rows)) [
  | inl missing ↦ rw missing (ground (arith, stock_at-create id p w q x rows))
  | inr (r, found) ↦ rw found e
]

-- A table and its log, in one.
abbrev pub Reconciles : Db → Type 0
Reconciles db = Reconciled db.inventory db.movements

pub empty-Reconciled : Reconciled [] []
unfolding stock_at
empty-Reconciled = record {
  on_hand = λ p w. refl;
  held = λ p w. refl;
  available = λ p w. tt;
  keyed = λ p w q x r s e _ _. cc;
}
