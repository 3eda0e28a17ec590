-- ===== src/Stock/Table.antt =====
-- The inventory table: the row of a part in a warehouse, the writes of the services, and the laws
-- by which the other modules read a row after a write.
use superflow_api.Base.{
  ℕ, ◌≡◌, ◌≢◌, refl, Bool, ◌&&◌, Option, none, some, List, [], ◌∷◌, arith, ◌==◌, if◌then◌else◌,
  find_first, update_where, Option-cases, inl, inr,
}
use superflow_api.Base.Int.{ℤ, pos, ◌-ℤ◌}
use superflow_api.Stock.Types.{Inventory}

abbrev pub at_key : ℕ → ℕ → Inventory → Bool
at_key p w r = r.part_id == p && r.warehouse_id == w

-- tx.inventory.findFirst({ where: { part_id, warehouse_id } })
unfoldable pub stock_at : ℕ → ℕ → List Inventory → Option Inventory
stock_at p w = find_first (at_key p w)

-- The row that is created where none is found: zero everywhere.
abbrev pub empty_row : ℕ → ℕ → ℕ → Inventory
empty_row id p w = record {
  id = id;
  part_id = p;
  warehouse_id = w;
  quantity_on_hand = pos 0;
  reserved_quantity = pos 0;
  available_quantity = pos 0;
}

-- tx.inventory.update({ where: { id }, data: { quantity_on_hand, reserved_quantity, … } }), where
-- every service computes the available quantity as what is on hand less what is reserved.
abbrev pub with_amounts : ℤ → ℤ → Inventory → Inventory
with_amounts h v r = record r {
  quantity_on_hand = h;
  reserved_quantity = v;
  available_quantity = h -ℤ v;
}

unfoldable pub write : ℕ → ℤ → ℤ → List Inventory → List Inventory
write id h v = update_where (λ r. r.id == id) (with_amounts h v)

-- What a write makes of the row with the id, and of any other.
abbrev pub written_row : ℕ → ℤ → ℤ → Inventory → Inventory
written_row id h v r = if r.id == id then with_amounts h v r else r

-- A row that is found has the key that was asked for.
pub stock_at_key :
    (p w : ℕ) (rows : List Inventory) (r : Inventory)
    → stock_at p w rows ≡ some r
    → (r.part_id ≡ p) × (r.warehouse_id ≡ w)
unfolding stock_at
stock_at_key p w [] r e = cc
stock_at_key p w (x ∷ rows) r e = ground (arith, stock_at_key p w rows r)

-- The row found after a write is the row found before it, written if it has the id.
abbrev map_written : ℕ → ℤ → ℤ → Option Inventory → Option Inventory
map_written id h v none = none
map_written id h v (some r) = some (written_row id h v r)

pub stock_at-write :
    (p w id : ℕ) (h v : ℤ) (rows : List Inventory)
    → stock_at p w (write id h v rows) ≡ map_written id h v (stock_at p w rows)
unfolding stock_at write
stock_at-write p w id h v [] = refl
stock_at-write p w id h v (x ∷ rows) = ground (arith, stock_at-write p w id h v rows)

-- Rows of different keys have different ids.
abbrev pub IsKeyed : List Inventory → Type 0
IsKeyed rows =
    (p w q x : ℕ) (r s : Inventory)
    → stock_at p w rows ≡ some r
    → stock_at q x rows ≡ some s
    → r.id ≡ s.id
    → (p ≡ q) × (w ≡ x)

-- No row has the id yet: what the `uuid` package promises of a new one.
abbrev pub IsFresh : ℕ → List Inventory → Type 0
IsFresh id rows = (p w : ℕ) (r : Inventory) → stock_at p w rows ≡ some r → r.id ≢ id

-- Two rows of one key are one row, so a write by id reaches the row of the key and no other.
pub stock_at-write_keyed :
    (p w q x : ℕ) (h v : ℤ) (rows : List Inventory) (r : Inventory)
    → IsKeyed rows
    → stock_at p w rows ≡ some r
    → stock_at q x (write r.id h v rows)
      ≡ (if q == p && x == w then some (with_amounts h v r) else stock_at q x rows)
stock_at-write_keyed p w q x h v rows r keyed e =
    rw (stock_at-write q x r.id h v rows) (elim (Option-cases (stock_at q x rows)) [
      | inl missing ↦ ground arith
      | inr (s, found) ↦ ground (arith, keyed q x p w s r found e)
    ])

pub stock_at-create :
    (id p w q x : ℕ) (rows : List Inventory)
    → stock_at q x (empty_row id p w ∷ rows)
      ≡ (if q == p && x == w then some (empty_row id p w) else stock_at q x rows)
unfolding stock_at
stock_at-create id p w q x rows = ground arith

module _ (rows : List Inventory) (keyed : IsKeyed rows) where
  pub write-IsKeyed : (id : ℕ) (h v : ℤ) → IsKeyed (write id h v rows)
  write-IsKeyed id h v p w q x r s er es same = elim (Option-cases (stock_at p w rows)) [
    | inl missing ↦ ground (arith, stock_at-write p w id h v rows)
    | inr (r', er') ↦ elim (Option-cases (stock_at q x rows)) [
      | inl missing ↦ ground (arith, stock_at-write q x id h v rows)
      | inr (s', es') ↦
          keyed p w q x r' s' er' es'
            (ground (arith, stock_at-write p w id h v rows, stock_at-write q x id h v rows))
    ]
  ]

  pub create-IsKeyed : (id p w : ℕ) → IsFresh id rows → IsKeyed (empty_row id p w ∷ rows)
  create-IsKeyed id p w fresh q x y z r s er es same = ground (
    arith,
    stock_at-create id p w q x rows,
    stock_at-create id p w y z rows,
    fresh q x r,
    fresh y z s,
    keyed q x y z r s,
  )
