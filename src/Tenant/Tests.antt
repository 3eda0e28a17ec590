-- ===== src/Tenant/Tests.antt =====
-- A client over a list of rows, and the theorems for two workshops.
use superflow_api.Base.{
  ℕ, ◌≡◌, refl, Bool, true, false, not, ◌&&◌, Option, none, some, List, [], ◌∷◌, ◌++◌, arith,
  keep_if, all, same_option,
}
use superflow_api.Tenant.Client.{
  Operation, find_many, find_first, count, aggregate, group_by, find_unique, create, create_many,
  update, update_many, delete, delete_many, other, Row, Args, Answer, rows, number, rows_of,
  is_read, is_write, is_create, Client, is_of, others,
}
use superflow_api.Tenant.Extension.{Context, is_scoped, all_operations}
use superflow_api.Tenant.Isolation.{AnswersOwn, all_operations-isolated, all_operations-no_workshop}

abbrev allows : Option ℕ → Option ℕ → Bool
allows none x = true
allows (some f) x = same_option x (some f)

abbrev meets : Args → Row → Bool
meets args r = allows args.where_id (some r.id) && allows args.where_workshop r.workshop_id

abbrev misses : Args → Row → Bool
misses args r = not (meets args r)

-- A client that keeps no columns besides: an update answers its rows and writes nothing here.
abbrev list_query : Operation → Args → List Row → Answer × List Row
list_query find_many args db = (rows (keep_if (meets args) db), db)
list_query find_first args db = (rows (keep_if (meets args) db), db)
list_query find_unique args db = (rows (keep_if (meets args) db), db)
list_query group_by args db = (rows (keep_if (meets args) db), db)
list_query count args db = (number 0, db)
list_query aggregate args db = (number 0, db)
list_query create args db = (rows args.new_rows, args.new_rows ++ db)
list_query create_many args db = (number 0, args.new_rows ++ db)
list_query update args db = (rows (keep_if (meets args) db), db)
list_query update_many args db = (number 0, db)
list_query delete args db = (rows (keep_if (meets args) db), keep_if (misses args) db)
list_query delete_many args db = (number 0, keep_if (misses args) db)
list_query other args db = (number 0, db)

module _ (w : ℕ) (args : Args) (scoped : args.where_workshop ≡ some w) where
  found_own : (db : List Row) → all (is_of w) (keep_if (meets args) db) ≡ true
  found_own [] = refl
  found_own (r ∷ db) = ground (arith, found_own db, scoped)

  left_others : (db : List Row) → others w (keep_if (misses args) db) ≡ others w db
  left_others [] = refl
  left_others (r ∷ db) = ground (arith, left_others db, scoped)

added_others :
    (w : ℕ) (new db : List Row) → all (is_of w) new ≡ true → others w (new ++ db) ≡ others w db
added_others w [] db h = refl
added_others w (r ∷ new) db h = ground (arith, added_others w new db)

list_reads_filtered :
    (op : Operation) (args : Args) (db : List Row) (w : ℕ)
    → is_read op ≡ true
    → args.where_workshop ≡ some w
    → all (is_of w) (rows_of (list_query op args db).0) ≡ true
list_reads_filtered find_many args db w h s = found_own w args s db
list_reads_filtered find_first args db w h s = found_own w args s db
list_reads_filtered group_by args db w h s = found_own w args s db
list_reads_filtered count args db w h s = refl
list_reads_filtered aggregate args db w h s = refl
list_reads_filtered _ args db w h s = cc

list_reads_keep :
    (op : Operation) (args : Args) (db : List Row)
    → is_read op ≡ true
    → (list_query op args db).1 ≡ db
list_reads_keep find_many args db h = refl
list_reads_keep find_first args db h = refl
list_reads_keep group_by args db h = refl
list_reads_keep count args db h = refl
list_reads_keep aggregate args db h = refl
list_reads_keep _ args db h = cc

list_writes_filtered :
    (op : Operation) (args : Args) (db : List Row) (w : ℕ)
    → is_write op ≡ true
    → args.where_workshop ≡ some w
    → args.new_rows ≡ []
    → (all (is_of w) (rows_of (list_query op args db).0) ≡ true)
      × (others w (list_query op args db).1 ≡ others w db)
list_writes_filtered update args db w h s n = (found_own w args s db, refl)
list_writes_filtered update_many args db w h s n = (refl, refl)
list_writes_filtered delete args db w h s n = (found_own w args s db, left_others w args s db)
list_writes_filtered delete_many args db w h s n = (refl, left_others w args s db)
list_writes_filtered _ args db w h s n = cc

list_creates_given :
    (op : Operation) (args : Args) (db : List Row) (w : ℕ)
    → is_create op ≡ true
    → all (is_of w) args.new_rows ≡ true
    → (all (is_of w) (rows_of (list_query op args db).0) ≡ true)
      × (others w (list_query op args db).1 ≡ others w db)
list_creates_given create args db w h own = (own, added_others w args.new_rows db own)
list_creates_given create_many args db w h own = (refl, added_others w args.new_rows db own)
list_creates_given _ args db w h own = cc

abbrev list_client : Client
list_client = record {
  query = list_query;
  reads_filtered = list_reads_filtered;
  reads_keep = list_reads_keep;
  unique_keeps = λ args db. refl;
  writes_filtered = list_writes_filtered;
  creates_given = list_creates_given;
}

abbrev two_rows : List Row
two_rows = record { id = 1; workshop_id = some 10 } ∷ record { id = 2; workshop_id = some 20 } ∷ []

abbrev all_rows : Args
all_rows = record { where_id = none; where_workshop = none; new_rows = [] }

-- A `deleteMany` of every job leaves the job of the other workshop.
all_operations-isolated_example :
    let ctx : Context = record { workshop_id = some 10; is_platform_admin = false } in
    let r = all_operations list_client.query ctx "jobs" delete_many all_rows two_rows in
    AnswersOwn 10 r.0 × (others 10 r.1 ≡ record { id = 2; workshop_id = some 20 } ∷ [])
unfolding is_scoped
all_operations-isolated_example =
    all_operations-isolated list_client 10 false "jobs" delete_many all_rows two_rows refl refl
      (λ _. refl)

all_operations-no_workshop_example :
    let ctx : Context = record { workshop_id = none; is_platform_admin = false } in
    let r = all_operations list_client.query ctx "jobs" find_many all_rows two_rows in
    (r.1 ≡ two_rows) × (false ≡ false → rows_of r.0 ≡ [])
unfolding is_scoped
all_operations-no_workshop_example =
    all_operations-no_workshop list_client false "jobs" find_many all_rows two_rows refl

-- The blockers have a workshop too, but are not in the list: a read is answered the rows of both.
blockers_leak :
    let ctx : Context = record { workshop_id = some 10; is_platform_admin = false } in
    rows_of (all_operations list_client.query ctx "blockers" find_many all_rows two_rows).0
    ≡ two_rows
unfolding is_scoped all_operations
blockers_leak = refl
