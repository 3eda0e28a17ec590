-- ===== src/Stock/Movements.antt =====
-- Rows of the movement log, and the row that an operation works on.
use text.Mathlib.Text.{◌==◌ as str_eq}
use superflow_api.Base.{ℕ, zero, String, Option, none, some, List, ◌∷◌, if◌then◌else◌}
use superflow_api.Base.Int.{ℤ, pos}
use superflow_api.Stock.Types.{Inventory, Note, written}
use superflow_api.Stock.Table.{stock_at, empty_row}

-- `dto.notes || text`: an empty note counts as none.
abbrev pub note_or : Option String → Option Note → Option Note
note_or none text = text
note_or (some s) text = if str_eq s "" then text else some (written s)

-- `dto.unit_cost ? dto.unit_cost : null`: a cost of zero counts as none.
abbrev pub nonzero : Option ℤ → Option ℤ
nonzero (some (pos zero)) = none
nonzero cost = cost

-- `if (!inventory) { inventory = await tx.inventory.create(…) }`: the row, and the table with it.
abbrev pub or_create : ℕ → ℕ → ℕ → List Inventory → Option Inventory → Inventory × List Inventory
or_create id p w rows none = (empty_row id p w, empty_row id p w ∷ rows)
or_create id p w rows (some r) = (r, rows)

unfoldable pub find_or_create : ℕ → ℕ → ℕ → List Inventory → Inventory × List Inventory
find_or_create id p w rows = or_create id p w rows (stock_at p w rows)
