-- ===== src/Tenant/Isolation.antt =====
-- A request of one workshop neither sees nor changes the rows of another
-- (src/prisma/prisma-tenant.extension.ts).
use superflow_api.Base.{
  ℕ, String, ◌≡◌, refl, ap, Bool, true, false, ◌&&◌, ◌||◌, none, some, List, [], ◌∷◌, map, keep_if,
  all, arith, if◌then◌else◌,
}
use superflow_api.Tenant.Client.{
  Operation, find_many, find_first, count, aggregate, group_by, find_unique, create, create_many,
  update, update_many, delete, delete_many, other, Row, Args, Answer, rows, number, thrown, rows_of,
  is_read, is_write, is_create, Client, is_of, others,
}
use superflow_api.Tenant.Extension.{
  Context, is_scoped, all_operations, in_scope, without_workshop, in_workshop, given_workshop,
  assigned, visible, is_visible, is_read_or_unique,
}

abbrev pub is_unique : Operation → Bool
is_unique find_unique = true
is_unique _ = false

-- The operations that the extension has a rule for.
abbrev pub is_handled : Operation → Bool
is_handled other = false
is_handled _ = true

-- What a workshop's requests are answered: rows of its own, or of none.
abbrev pub AnswersOwn : ℕ → Answer → Type 0
AnswersOwn w answer = all (is_visible w) (rows_of answer) ≡ true

own-visible : (w : ℕ) (l : List Row) → all (is_of w) l ≡ true → all (is_visible w) l ≡ true
own-visible w [] h = refl
own-visible w (r ∷ l) h = ground (arith, own-visible w l)

visible-AnswersOwn : (w : ℕ) (answer : Answer) → AnswersOwn w (visible w answer)
visible-AnswersOwn w (number n) = refl
visible-AnswersOwn w thrown = refl
visible-AnswersOwn w (rows l) = kept l
  where
    kept : (l : List Row) → all (is_visible w) (keep_if (is_visible w) l) ≡ true
    kept [] = refl
    kept (r ∷ l) = ground (arith, kept l)

given-own : (w : ℕ) (l : List Row) → all (is_of w) (map (assigned w) l) ≡ true
given-own w [] = refl
given-own w (r ∷ l) = ground (arith, given-own w l)

module _ (client : Client) (w : ℕ) where
  read-AnswersOwn :
      (op : Operation) (args : Args) (db : List Row)
      → is_read op ≡ true
      → AnswersOwn w (client.query op (in_workshop w args) db).0
        × (others w (client.query op (in_workshop w args) db).1 ≡ others w db)
  read-AnswersOwn op args db h = (
    own-visible w _ (client.reads_filtered op (in_workshop w args) db w h refl),
    ap (others w) (client.reads_keep op (in_workshop w args) db h),
  )

  write-AnswersOwn :
      (op : Operation) (args : Args) (db : List Row)
      → is_write op ≡ true
      → args.new_rows ≡ []
      → AnswersOwn w (client.query op (in_workshop w args) db).0
        × (others w (client.query op (in_workshop w args) db).1 ≡ others w db)
  write-AnswersOwn op args db h still =
      let written = client.writes_filtered op (in_workshop w args) db w h refl still in
      (own-visible w _ written.0, written.1)

  create-AnswersOwn :
      (op : Operation) (args : Args) (db : List Row)
      → is_create op ≡ true
      → AnswersOwn w (client.query op (given_workshop w args) db).0
        × (others w (client.query op (given_workshop w args) db).1 ≡ others w db)
  create-AnswersOwn op args db h =
      let created =
        client.creates_given op (given_workshop w args) db w h (given-own w args.new_rows) in
      (own-visible w _ created.0, created.1)

  in_scope-isolated :
      (op : Operation) (args : Args) (db : List Row)
      → is_handled op ≡ true
      → (is_write op ≡ true → args.new_rows ≡ [])
      → let r = in_scope client.query w op args db in
        AnswersOwn w r.0 × (others w r.1 ≡ others w db)
  unfolding in_scope
  in_scope-isolated find_unique args db h still = (
    visible-AnswersOwn w (client.query find_unique args db).0,
    ap (others w) (client.unique_keeps args db),
  )
  in_scope-isolated find_many args db h still = read-AnswersOwn find_many args db refl
  in_scope-isolated find_first args db h still = read-AnswersOwn find_first args db refl
  in_scope-isolated count args db h still = read-AnswersOwn count args db refl
  in_scope-isolated aggregate args db h still = read-AnswersOwn aggregate args db refl
  in_scope-isolated group_by args db h still = read-AnswersOwn group_by args db refl
  in_scope-isolated create args db h still = create-AnswersOwn create args db refl
  in_scope-isolated create_many args db h still = create-AnswersOwn create_many args db refl
  in_scope-isolated update args db h still = write-AnswersOwn update args db refl (still refl)
  in_scope-isolated update_many args db h still =
      write-AnswersOwn update_many args db refl (still refl)
  in_scope-isolated delete args db h still = write-AnswersOwn delete args db refl (still refl)
  in_scope-isolated delete_many args db h still =
      write-AnswersOwn delete_many args db refl (still refl)
  in_scope-isolated other args db h still = cc

-- A request with a workshop, on a model in the list of scoped ones, by an operation that the
-- extension has a rule for: it is answered only rows of that workshop or of none, and the rows of
-- the other workshops are what they were, whoever makes it and whatever filter it brings. The
-- client is any that keeps the promises in `Client`, and an update does not move a row to another
-- workshop.
pub all_operations-isolated :
    (client : Client) (w : ℕ) (is_admin : Bool) (model : String) (op : Operation) (args : Args)
    (db : List Row)
    → is_scoped model ≡ true
    → is_handled op ≡ true
    → (is_write op ≡ true → args.new_rows ≡ [])
    → let ctx : Context = record { workshop_id = some w; is_platform_admin = is_admin } in
      let r = all_operations client.query ctx model op args db in
      AnswersOwn w r.0 × (others w r.1 ≡ others w db)
unfolding all_operations
all_operations-isolated client w true model op args db scoped h still =
    rw scoped (in_scope-isolated client w op args db h still)
all_operations-isolated client w false model op args db scoped h still =
    rw scoped (in_scope-isolated client w op args db h still)

without_workshop-answers :
    (client : Client) (op : Operation) (args : Args) (db : List Row)
    → let r = without_workshop client.query op args db in
      (r.1 ≡ db) × (is_unique op ≡ false → rows_of r.0 ≡ [])
unfolding without_workshop
without_workshop-answers client find_unique args db = (client.unique_keeps args db, λ h. cc)
without_workshop-answers client _ args db = (refl, λ _. refl)

admin-answers :
    (client : Client) (op : Operation) (args : Args) (db : List Row)
    → let r =
        (if is_read_or_unique op
          then client.query op args db
          else without_workshop client.query op args db) in
      (r.1 ≡ db) × ((is_unique op || is_read_or_unique op) ≡ false → rows_of r.0 ≡ [])
unfolding without_workshop
admin-answers client find_unique args db = (client.unique_keeps args db, λ h. cc)
admin-answers client find_many args db = (client.reads_keep find_many args db refl, λ h. cc)
admin-answers client find_first args db = (client.reads_keep find_first args db refl, λ h. cc)
admin-answers client count args db = (client.reads_keep count args db refl, λ h. cc)
admin-answers client aggregate args db = (client.reads_keep aggregate args db refl, λ h. cc)
admin-answers client group_by args db = (client.reads_keep group_by args db refl, λ h. cc)
admin-answers client _ args db = (refl, λ _. refl)

-- A request without a workshop changes no row of a scoped model, and is answered rows only by
-- `findUnique`, or when a platform administrator reads. The client is any that keeps the promises
-- in `Client`.
pub all_operations-no_workshop :
    (client : Client) (is_admin : Bool) (model : String) (op : Operation) (args : Args)
    (db : List Row)
    → is_scoped model ≡ true
    → let ctx : Context = record { workshop_id = none; is_platform_admin = is_admin } in
      let r = all_operations client.query ctx model op args db in
      (r.1 ≡ db) × ((is_unique op || is_admin && is_read_or_unique op) ≡ false → rows_of r.0 ≡ [])
unfolding all_operations
all_operations-no_workshop client false model op args db scoped =
    let (kept, empty) = without_workshop-answers client op args db in
    rw scoped (kept, λ h. empty (ground arith))
all_operations-no_workshop client true model op args db scoped =
    rw scoped (admin-answers client op args db)
