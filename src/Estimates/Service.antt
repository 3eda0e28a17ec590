-- ===== src/Estimates/Service.antt =====
-- `EstimatesService` (src/estimates/estimates.service.ts): single lines and groups.
use superflow_api.Base.{
  ℕ, ◌*◌, Bool, true, not, ◌&&◌, ◌||◌, err, if◌then◌else◌, Option, none, some, List, ◌∷◌, ◌==◌,
  find_first, keep_if, update_where, any, is_some, or_else, same_option, Result, ok, not_found,
  failed, ◌>>=◌, ◌>>◌, throw_if, or_throw,
}
use superflow_api.Base.Int.{ℤ, pos, ◌-ℤ◌, ◌*ℤ◌}
use superflow_api.Estimates.Types.{
  labour, Line, LineDto, Group, TaxSettings, Estimates, Reason, group_missing, line_missing,
  not_unique, is_referenced, key_missing, UpdateLineDto,
}

abbrev pub find_line : ℕ → List Line → Option Line
find_line id = find_first (λ l. l.id == id)

abbrev pub has_line : ℕ → List Line → Bool
has_line id lines = is_some (find_line id lines)

abbrev pub find_group : ℕ → List Group → Option Group
find_group id = find_first (λ g. g.id == id)

abbrev first_of : Option ℕ → Option ℕ → Option ℕ
first_of none b = b
first_of (some a) _ = some a

-- `getDefaultTaxRate`: 5 percent where no setting is a number.
unfoldable pub default_tax_rate : TaxSettings → ℕ
default_tax_rate s = or_else (first_of s.default_tax_rate s.tax_rate) 500

-- `qty * unitPrice * (1 - discount / 100)`
unfoldable pub total_of : ℕ → ℕ → ℕ → ℤ
total_of quantity unit_price discount = pos (quantity * unit_price) *ℤ (pos 10000 -ℤ pos discount)

-- `lineTotal * (taxRate / 100)`
unfoldable pub tax_of : ℤ → ℕ → ℤ
tax_of total rate = total *ℤ pos rate

abbrev pub group_exists : Option ℕ → Estimates → Bool
group_exists none db = true
group_exists (some g) db = is_some (find_group g db.groups)

abbrev pub has_id : ℕ → List ℕ → Bool
has_id id = any (λ n. n == id)

abbrev pub is_known : Option ℕ → List ℕ → Bool
is_known none ids = true
is_known (some id) ids = has_id id ids

-- The foreign keys of a line but that of its group: fk_el_job, fk_el_response, fk_el_concern and
-- fk_el_added_by
unfoldable pub keys_found : Estimates → Line → Bool
keys_found db l =
    is_known l.job_id db.jobs
    && is_known l.inspection_response_id db.responses
    && is_known l.concern_id db.concerns
    && has_id l.added_by db.users

abbrev created : ℕ → ℕ → LineDto → ℕ → Line
created job user dto rate =
    let quantity = or_else dto.quantity 100 in
    let unit_price = or_else dto.unit_price 0 in
    let discount = or_else dto.discount_pct 0 in
    let total = total_of quantity unit_price discount in
    record {
      id = dto.fresh;
      job_id = some job;
      inspection_response_id = dto.inspection_response_id;
      quote_group_id = dto.quote_group_id;
      concern_id = dto.concern_id;
      kind = or_else dto.kind labour;
      description = some (or_else dto.description 0);
      part_number = dto.part_number;
      quantity = quantity;
      unit_price = unit_price;
      discount_pct = discount;
      tax_rate_pct = some rate;
      line_total = total;
      tax_amount = tax_of total rate;
      is_recommended = or_else dto.is_recommended (is_some dto.inspection_response_id);
      sort_order = 0;
      added_by = user;
    }

-- `create`
unfoldable pub create_line : ℕ → LineDto → ℕ → Estimates → Result Reason (Unit {0} × Estimates)
create_line job dto user db = do
  throw_if (not (group_exists dto.quote_group_id db)) (not_found group_missing)
  throw_if (has_line dto.fresh db.lines) (failed not_unique)
  let row = created job user dto (or_else dto.tax_rate_pct (default_tax_rate db.settings))
  throw_if (not (keys_found db row)) (failed key_missing)
  ok (tt, record db { lines = row ∷ db.lines })

-- `dto.field ?? existing`: null takes the old value too.
abbrev given_or : Option (Option ℕ) → ℕ → ℕ
given_or (some (some n)) old = n
given_or _ old = old

-- What `{ ...dto }` writes of a number, null as 0
abbrev spread : Option (Option ℕ) → ℕ → ℕ
spread none old = old
spread (some none) old = 0
spread (some (some n)) old = n

abbrev pub edited : UpdateLineDto → Line → Line
edited dto l =
    let quantity = given_or dto.quantity l.quantity in
    let unit_price = given_or dto.unit_price l.unit_price in
    let discount = given_or dto.discount_pct l.discount_pct in
    let rate = given_or dto.tax_rate_pct (or_else l.tax_rate_pct 0) in
    let total = total_of quantity unit_price discount in
    record l {
      quote_group_id = or_else dto.quote_group_id l.quote_group_id;
      concern_id = or_else dto.concern_id l.concern_id;
      description = or_else dto.description l.description;
      part_number = or_else dto.part_number l.part_number;
      quantity = spread dto.quantity l.quantity;
      unit_price = spread dto.unit_price l.unit_price;
      discount_pct = spread dto.discount_pct l.discount_pct;
      tax_rate_pct = or_else dto.tax_rate_pct l.tax_rate_pct;
      line_total = total;
      tax_amount = tax_of total rate;
      is_recommended = or_else dto.is_recommended l.is_recommended;
    }

abbrev pub write_line : ℕ → (Line → Line) → List Line → List Line
write_line id f = update_where (λ l. l.id == id) f

-- `update`. The line as it was goes into the history first, and stays there where a foreign key
-- refuses the write after it (of the keys that it keeps none does).
unfoldable pub write_update :
    Option Line → ℕ → UpdateLineDto → Estimates → Result Reason (Unit {0}) × Estimates
write_update none id dto db = (err (not_found line_missing), db)
write_update (some l) id dto db =
    let noted = record db { history = id ∷ db.history } in
    let row = edited dto l in
    if keys_found noted row && group_exists row.quote_group_id noted
    then (ok tt, record noted { lines = write_line id (edited dto) noted.lines })
    else (err (failed key_missing), noted)

unfoldable pub update_line : ℕ → UpdateLineDto → Estimates → Result Reason (Unit {0}) × Estimates
update_line id dto db = write_update (find_line id db.lines) id dto db

-- What a foreign key refuses to leave dangling
unfoldable pub has_references : ℕ → Estimates → Bool
has_references id db = has_id id db.decisions || has_id id db.deferred || has_id id db.history

abbrev pub without_line : ℕ → List Line → List Line
without_line id = keep_if (λ l. not (l.id == id))

-- `remove`
unfoldable pub remove_line : ℕ → Estimates → Result Reason (Unit {0} × Estimates)
remove_line id db = do
  existing ← or_throw (find_line id db.lines) (not_found line_missing)
  throw_if (has_references id db) (failed is_referenced)
  ok (tt, record db { lines = without_line id db.lines })

-- `createGroup`; `id` is the new group's, and title 0 is "New group".
unfoldable pub create_group : ℕ → ℕ → Option ℕ → Estimates → Result Reason (Unit {0} × Estimates)
create_group id job title db = do
  throw_if (not (has_id job db.jobs)) (failed key_missing)
  ok (
    tt,
    record db { groups = record { id = id; job_id = job; title = or_else title 0 } ∷ db.groups },
  )

-- `renameGroup`
unfoldable pub rename_group : ℕ → ℕ → Estimates → Result Reason (Unit {0} × Estimates)
rename_group id title db = do
  group ← or_throw (find_group id db.groups) (not_found group_missing)
  ok (
    tt,
    record db {
      groups = update_where (λ g. g.id == id) (λ g. record g { title = title }) db.groups;
    },
  )

abbrev pub ungrouped : Line → Line
ungrouped l = record l { quote_group_id = none }

-- `deleteGroup`: the lines of the group stay.
unfoldable pub delete_group : ℕ → Estimates → Result Reason (Unit {0} × Estimates)
delete_group id db = do
  group ← or_throw (find_group id db.groups) (not_found group_missing)
  ok (
    tt,
    record db {
      lines = update_where (λ l. same_option l.quote_group_id (some id)) ungrouped db.lines;
      groups = keep_if (λ g. not (g.id == id)) db.groups;
    },
  )
