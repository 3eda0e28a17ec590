-- ===== src/Tenant/Client.antt =====
-- The database client that the extension wraps. It is a package, so a parameter: what it promises
-- of a call is in the record `Client`.
use superflow_api.Base.{
  ℕ, ◌≡◌, Bool, true, false, not, Option, some, List, [], keep_if, all, same_option,
}

pub data Operation : Type 0 where
  find_many find_first count aggregate group_by find_unique : Operation
  create create_many update update_many delete delete_many other : Operation

-- A row of a table: its id and its workshop, which is all that the scoping looks at.
pub record Row : Type 0 where
  pub id : ℕ
  pub workshop_id : Option ℕ

-- A call's arguments: the filter on the id, the filter on the workshop, and what is written, as far
-- as it names a workshop: the rows of a creation, and for an update the row if it is moved.
pub record Args : Type 0 where
  pub where_id : Option ℕ
  pub where_workshop : Option ℕ
  pub new_rows : List Row

-- What a call answers: rows, a number, or an exception.
pub data Answer : Type 0 where
  rows : List Row → Answer
  number : ℕ → Answer
  thrown : Answer

abbrev pub rows_of : Answer → List Row
rows_of (rows r) = r
rows_of _ = []

abbrev pub Query : Type 0
Query = Operation → Args → List Row → Answer × List Row

abbrev pub is_of : ℕ → Row → Bool
is_of w r = same_option r.workshop_id (some w)

abbrev pub is_of_another : ℕ → Row → Bool
is_of_another w r = not (is_of w r)

-- The rows of the other workshops
abbrev pub others : ℕ → List Row → List Row
others w = keep_if (is_of_another w)

abbrev pub is_read : Operation → Bool
is_read find_many = true
is_read find_first = true
is_read count = true
is_read aggregate = true
is_read group_by = true
is_read _ = false

abbrev pub is_write : Operation → Bool
is_write update = true
is_write update_many = true
is_write delete = true
is_write delete_many = true
is_write _ = false

abbrev pub is_create : Operation → Bool
is_create create = true
is_create create_many = true
is_create _ = false

-- What the client documents of the calls, as far as workshops go.
pub record Client : Type 0 where
  pub query : Query
  pub reads_filtered :
      (op : Operation) (args : Args) (db : List Row) (w : ℕ)
      → is_read op ≡ true
      → args.where_workshop ≡ some w
      → all (is_of w) (rows_of (query op args db).0) ≡ true
  pub reads_keep :
      (op : Operation) (args : Args) (db : List Row) → is_read op ≡ true → (query op args db).1 ≡ db
  pub unique_keeps : (args : Args) (db : List Row) → (query find_unique args db).1 ≡ db
  pub writes_filtered :
      (op : Operation) (args : Args) (db : List Row) (w : ℕ)
      → is_write op ≡ true
      → args.where_workshop ≡ some w
      → args.new_rows ≡ []
      → (all (is_of w) (rows_of (query op args db).0) ≡ true)
        × (others w (query op args db).1 ≡ others w db)
  pub creates_given :
      (op : Operation) (args : Args) (db : List Row) (w : ℕ)
      → is_create op ≡ true
      → all (is_of w) args.new_rows ≡ true
      → (all (is_of w) (rows_of (query op args db).0) ≡ true)
        × (others w (query op args db).1 ≡ others w db)
