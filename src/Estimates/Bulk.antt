-- ===== src/Estimates/Bulk.antt =====
-- `bulkReplace` (src/estimates/estimates.service.ts): the lines of a job are saved as the page has
-- them. An exception undoes the whole.
use superflow_api.Base.{
  ℕ, suc, ◌+◌, Bool, false, not, ◌||◌, Option, none, some, List, [], ◌∷◌, ltb, length, keep_if, any,
  is_some, or_else, same_option, if◌then◌else◌, Result, ok, err, failed, ◌>>=◌,
}
use superflow_api.Estimates.Types.{
  labour, Line, LineDto, Group, Estimates, Reason, not_unique, key_missing,
}
use superflow_api.Estimates.Service.{
  find_line, has_line, find_group, default_tax_rate, total_of, tax_of, write_line, without_line,
  has_references, keys_found,
}

-- The id under which a line is saved: its own, or a new one
abbrev pub id_of : LineDto → ℕ
id_of dto = or_else dto.id dto.fresh

-- A line is looked up by its own id only.
abbrev pub existing_line : LineDto → List Line → Option Line
existing_line dto existing = elim dto.id [ none ↦ none | some id ↦ find_line id existing ]

-- A new line takes the default where the page sends 0 or nothing; an old one keeps its rate where it
-- sends nothing.
abbrev pub positive_or : Option ℕ → ℕ → ℕ
positive_or none rate = rate
positive_or (some r) rate = if ltb 0 r then r else rate

abbrev pub rate_of : LineDto → Option Line → ℕ → ℕ
rate_of dto none default = positive_or dto.tax_rate_pct default
rate_of dto (some old) default = or_else dto.tax_rate_pct (or_else old.tax_rate_pct default)

-- `data`
abbrev pub saved : ℕ → ℕ → ℕ → ℕ → LineDto → Option Line → Line
saved job user place default dto old =
    let quantity = or_else dto.quantity 100 in
    let unit_price = or_else dto.unit_price 0 in
    let discount = or_else dto.discount_pct 0 in
    let rate = rate_of dto old default in
    let total = total_of quantity unit_price discount in
    record {
      id = id_of dto;
      job_id = some job;
      inspection_response_id = dto.inspection_response_id;
      quote_group_id = dto.quote_group_id;
      concern_id = dto.concern_id;
      kind = or_else dto.kind labour;
      description = some (or_else dto.description 0);
      part_number = dto.part_number;
      quantity = quantity;
      unit_price = unit_price;
      discount_pct = discount;
      tax_rate_pct = some rate;
      line_total = total;
      tax_amount = tax_of total rate;
      is_recommended = is_some dto.inspection_response_id || or_else dto.is_recommended false;
      sort_order = place;
      added_by = user;
    }

-- An existing line of the job is written; another line is created, which the primary key refuses
-- where there is one of that id. Both throw where the line names a job, a response, a concern or a
-- user that there is not; its group has been made before.
abbrev pub write_or_create : Estimates → Option Line → Line → List Line → Result Reason (List Line)
write_or_create db (some _) row lines =
    if keys_found db row then ok (write_line row.id (λ _. row) lines) else err (failed key_missing)
write_or_create db none row lines =
    if has_line row.id lines
    then err (failed not_unique)
    else if keys_found db row
    then ok (row ∷ lines)
    else err (failed key_missing)

-- The loop over the lines, from place `i` on
unfoldable pub save_lines :
    Estimates → ℕ → ℕ → ℕ → List Line → ℕ → List LineDto → List Line → Result Reason (List Line)
save_lines db job user default existing i [] lines = ok lines
save_lines db job user default existing i (dto ∷ dtos) lines = do
  let old = existing_line dto existing
  lines' ← write_or_create db old (saved job user i default dto old) lines
  save_lines db job user default existing (i + 1) dtos lines'

abbrev pub detached : ℕ → Line → Line
detached place l = record l {
  job_id = none;
  inspection_response_id = none;
  quote_group_id = none;
  concern_id = none;
  sort_order = place;
}

-- The loop over the stale lines: one that is referred to is detached from the job, another is deleted.
unfoldable pub drop_stale : Estimates → ℕ → List Line → List Line → List Line
drop_stale db place [] lines = lines
drop_stale db place (l ∷ stale) lines =
    let kept = has_references l.id db in
    let lines' = if kept then write_line l.id (detached place) lines else without_line l.id lines in
    drop_stale db (if kept then suc place else place) stale lines'

abbrev pub is_incoming : List LineDto → ℕ → Bool
is_incoming dtos id = any (λ d. same_option d.id (some id)) dtos

abbrev pub lines_of : ℕ → List Line → List Line
lines_of job = keep_if (λ l. same_option l.job_id (some job))

abbrev pub group_ids : List LineDto → List ℕ
group_ids [] = []
group_ids (d ∷ dtos) =
    let rest = group_ids dtos in elim d.quote_group_id [ none ↦ rest | some g ↦ g ∷ rest ]

-- Groups that do not exist yet are made. A job that there is not is refused here already: the lines
-- that name the group are refused then, and the whole is undone.
unfoldable pub ensure_groups : ℕ → List ℕ → List Group → List Group
ensure_groups job [] groups = groups
ensure_groups job (g ∷ gs) groups = ensure_groups job gs (
    if is_some (find_group g groups)
    then groups
    else record { id = g; job_id = job; title = 0 } ∷ groups)

-- `bulkReplace`
unfoldable pub bulk_replace :
    ℕ → List LineDto → ℕ → Estimates → Result Reason (Unit {0} × Estimates)
bulk_replace job dtos user db = do
  let existing = lines_of job db.lines
  let default = default_tax_rate db.settings
  saved_lines ← save_lines db job user default existing 0 dtos db.lines
  let stale = keep_if (λ l. not (is_incoming dtos l.id)) existing
  ok (
    tt,
    record db {
      groups = ensure_groups job (group_ids dtos) db.groups;
      lines = drop_stale db (length dtos) stale saved_lines;
    },
  )
