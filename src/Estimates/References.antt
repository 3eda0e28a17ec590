-- ===== src/Estimates/References.antt =====
-- What the foreign keys of the estimate refer to, over the calls of src/estimates/estimates.service.ts:
-- a customer's decision, a deferred work and the edit history keep their line.
use superflow_api.Base.{
  ℕ, ◌≡◌, refl, ◌∙◌, subst, Bool, true, not, ◌&&◌, ◌||◌, Option, Option-cases, List, [], ◌∷◌, arith,
  ◌==◌, ==_iff, length, Bool-cases, inl, inr, after, Keeps, Keeps-bind, throw_if-eq-ok,
}
use superflow_api.Estimates.Types.{Line, LineDto, UpdateLineDto, Group, Estimates}
use superflow_api.Estimates.Service.{
  has_line, write_line, has_references, create_line, update_line, remove_line, create_group,
  rename_group, delete_group, write_update, find_line, keys_found, group_exists, edited, ungrouped,
  default_tax_rate,
}
use superflow_api.Estimates.Bulk.{lines_of, bulk_replace}
use superflow_api.Estimates.Kept.{
  has_line-update, has_line-without, keeps_line, save_lines-keeps, drop_stale-keeps,
  has_references-apart,
}

-- The calls of the controller that change the estimates, by a user
pub data EstimateCall : Type 0 where
  create_of : ℕ → LineDto → EstimateCall
  update_of : ℕ → UpdateLineDto → EstimateCall
  remove_of : ℕ → EstimateCall
  bulk_of : ℕ → List LineDto → EstimateCall
  new_group : ℕ → ℕ → Option ℕ → EstimateCall
  group_title : ℕ → ℕ → EstimateCall
  drop_group : ℕ → EstimateCall

-- The estimates after a call, whether it returns or throws
unfoldable pub answer : ℕ → EstimateCall → Estimates → Estimates
answer user (create_of job dto) db = after db (create_line job dto user db)
answer user (update_of id dto) db = (update_line id dto db).1
answer user (remove_of id) db = after db (remove_line id db)
answer user (bulk_of job dtos) db = after db (bulk_replace job dtos user db)
answer user (new_group id job title) db = after db (create_group id job title db)
answer user (group_title id title) db = after db (rename_group id title db)
answer user (drop_group id) db = after db (delete_group id db)

-- A reference to line `n` finds it.
abbrev pub finds : Estimates → ℕ → Bool
finds db n = not (has_references n db) || has_line n db.lines

abbrev pub AreFound : Estimates → Type 0
AreFound db = (n : ℕ) → finds db n ≡ true

-- Rows that keep what is referred to
still_found :
    (db : Estimates) (lines : List Line) (groups : List Group)
    → ((n : ℕ) → has_references n db ≡ true → has_line n db.lines ≡ true → has_line n lines ≡ true)
    → AreFound db
    → AreFound (record db { lines = lines; groups = groups })
unfolding has_references
still_found db lines groups keeps found n = ground (arith, keeps n, found n)

noted-finds :
    (id n : ℕ) (db : Estimates)
    → has_line id db.lines ≡ true
    → finds db n ≡ true
    → finds (record db { history = id ∷ db.history }) n ≡ true
unfolding has_references
noted-finds id n db has found = elim (Bool-cases (id == n)) [
  | inl same ↦
      let named = subst (λ k. has_line k db.lines ≡ true) ((==_iff id n).0 same) has in
      rw named (ground arith)
  | inr apart ↦ rw apart found
]

edited-finds :
    (dto : UpdateLineDto) (id n : ℕ) (db : Estimates)
    → has_line id db.lines ≡ true
    → finds db n ≡ true
    → finds (record db { lines = write_line id (edited dto) db.lines; history = id ∷ db.history }) n
      ≡ true
unfolding has_references
edited-finds dto id n db has found =
    let kept = has_line-update n (λ l. l.id == id) (edited dto) db.lines (λ l. refl) in
    elim (Bool-cases (id == n)) [
      | inl same ↦
          let named = subst (λ k. has_line k db.lines ≡ true) ((==_iff id n).0 same) has in
          rw (kept, named) (ground arith)
      | inr apart ↦ rw (kept, apart) found
    ]

update_line-AreFound :
    (id : ℕ) (dto : UpdateLineDto) (db : Estimates)
    → AreFound db
    → AreFound (update_line id dto db).1
unfolding update_line write_update
update_line-AreFound id dto db found = elim (Option-cases (find_line id db.lines)) [
  | inl missing ↦ rw missing found
  | inr (l, at) ↦ rw at (
      let noted = record db { history = id ∷ db.history } in
      let row = edited dto l in
      let has : has_line id db.lines ≡ true = rw at refl in
      elim (Bool-cases (keys_found noted row && group_exists row.quote_group_id noted)) [
        | inl known ↦ rw known (λ n. edited-finds dto id n db has (found n))
        | inr refused ↦ rw refused (λ n. noted-finds id n db has (found n))
      ])
]

bulk_replace-AreFound :
    (job : ℕ) (dtos : List LineDto) (user : ℕ) (db : Estimates)
    → AreFound db
    → Keeps AreFound db (bulk_replace job dtos user db)
unfolding bulk_replace
bulk_replace-AreFound job dtos user db found = Keeps-bind _ _ found λ lines saved'. record {
  holds =
      still_found db _ _
        (λ n refers has. drop_stale-keeps db (length dtos) n _ lines refers (
          subst (λ r. keeps_line n r ≡ true) saved'
            (save_lines-keeps db job user (default_tax_rate db.settings) (lines_of job db.lines) 0 n
              dtos db.lines has)))
        found;
}

create_line-AreFound :
    (job : ℕ) (dto : LineDto) (user : ℕ) (db : Estimates)
    → AreFound db
    → Keeps AreFound db (create_line job dto user db)
unfolding create_line
create_line-AreFound job dto user db found = Keeps-bind _ _ found λ _ _. Keeps-bind _ _ found λ _ _.
    Keeps-bind _ _ found λ _ _. record {
      holds = still_found db _ db.groups (λ n refers has. ground (arith, has)) found;
    }

remove_line-AreFound :
    (id : ℕ) (db : Estimates) → AreFound db → Keeps AreFound db (remove_line id db)
unfolding remove_line
remove_line-AreFound id db found = Keeps-bind _ _ found λ _ _. Keeps-bind _ _ found λ _ free.
    record {
      holds =
          still_found db _ db.groups
            (λ n refers has.
              let unused = throw_if-eq-ok _ _ free in
              has_line-without n id db.lines
              ∙ rw (has_references-apart id n db unused refers, has) refl)
            found;
    }

create_group-AreFound :
    (id job : ℕ) (title : Option ℕ) (db : Estimates)
    → AreFound db
    → Keeps AreFound db (create_group id job title db)
unfolding create_group
create_group-AreFound id job title db found =
    Keeps-bind _ _ found
      λ _ _. record { holds = still_found db db.lines _ (λ n refers has. has) found }

rename_group-AreFound :
    (id title : ℕ) (db : Estimates) → AreFound db → Keeps AreFound db (rename_group id title db)
unfolding rename_group
rename_group-AreFound id title db found =
    Keeps-bind _ _ found
      λ _ _. record { holds = still_found db db.lines _ (λ n refers has. has) found }

delete_group-AreFound :
    (id : ℕ) (db : Estimates) → AreFound db → Keeps AreFound db (delete_group id db)
unfolding delete_group
delete_group-AreFound id db found = Keeps-bind _ _ found λ _ _. record {
  holds =
      still_found db _ _ (λ n refers has. has_line-update n _ ungrouped db.lines (λ l. refl) ∙ has)
        found;
}

answer-AreFound :
    (user : ℕ) (call : EstimateCall) (db : Estimates) → AreFound db → AreFound (answer user call db)
unfolding answer
answer-AreFound user (create_of job dto) db found =
    (create_line-AreFound job dto user db found).holds
answer-AreFound user (update_of id dto) db found = update_line-AreFound id dto db found
answer-AreFound user (remove_of id) db found = (remove_line-AreFound id db found).holds
answer-AreFound user (bulk_of job dtos) db found =
    (bulk_replace-AreFound job dtos user db found).holds
answer-AreFound user (new_group id job title) db found =
    (create_group-AreFound id job title db found).holds
answer-AreFound user (group_title id title) db found =
    (rename_group-AreFound id title db found).holds
answer-AreFound user (drop_group id) db found = (delete_group-AreFound id db found).holds

-- The estimates after the calls of some users, each by the user it names
unfoldable pub after_calls : List (ℕ × EstimateCall) → Estimates → Estimates
after_calls [] db = db
after_calls ((user, call) ∷ calls) db = after_calls calls (answer user call db)

-- A customer's decision, a deferred work and an entry of the edit history always find their line,
-- after any calls that create, edit, remove or save lines or groups, if they do so at first.
pub after_calls-finds :
    (calls : List (ℕ × EstimateCall)) (db : Estimates)
    → AreFound db
    → AreFound (after_calls calls db)
unfolding after_calls
after_calls-finds [] db found = found
after_calls-finds ((user, call) ∷ calls) db found =
    after_calls-finds calls (answer user call db) (answer-AreFound user call db found)
