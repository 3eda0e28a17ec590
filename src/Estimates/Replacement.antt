-- ===== src/Estimates/Replacement.antt =====
-- A bulk save replaces the estimate of a job: `bulkReplace` (src/estimates/estimates.service.ts) as a
-- change of the abstract estimate, which is the line of each id.
use mathlib.Core.Option.{map}
use superflow_api.Base.{
  ℕ, ◌≡◌, refl, sym, ap, ◌∙◌, subst, Bool, true, false, not, ◌&&◌, ◌||◌, Option, none, some, List,
  ◌==◌, length, any, all, is_some, same_option, if◌then◌else◌, Bool-cases, inl, inr, ok, ◌>>=◌,
}
use superflow_api.Estimates.Types.{Line, LineDto, Estimates}
use superflow_api.Estimates.Service.{find_line, has_line, has_references, default_tax_rate}
use superflow_api.Estimates.Bulk.{
  id_of, existing_line, detached, drop_stale, lines_of, is_incoming, group_ids, ensure_groups,
  bulk_replace,
}
use superflow_api.Estimates.Rows.{AreDistinct, find_line-own, own}
use superflow_api.Estimates.Quote.{or_line, expected, is_named, all_apart, refers, save_lines-find}
use superflow_api.Estimates.Dropping.{unplaced, view, dropped, drop_stale-view}
use superflow_api.Estimates.Sent.{AreAsSent, expected-AreAsSent}
use superflow_api.Estimates.Stale.{
  stale_lines, stale_lines-has, expected-some, incoming-named, named-incoming,
}

-- The line of the job that the page sends by its id
abbrev pub old_line : ℕ → List Line → LineDto → Option Line
old_line job lines d = elim d.id [ none ↦ none | some id ↦ own job (find_line id lines) ]

-- A line of the page is one of the job's, or its id is new.
abbrev pub can_save : ℕ → List Line → LineDto → Bool
can_save job lines d = is_some (old_line job lines d) || not (has_line (id_of d) lines)

-- A line that the page does not send: of the job, it leaves the job where something refers to it and
-- else is gone; another stays.
abbrev pub remaining : ℕ → Estimates → ℕ → Option Line → Option Line
remaining job db id none = none
remaining job db id (some l) =
    if same_option l.job_id (some job)
    then (if has_references id db then some (unplaced (detached 0 l)) else none)
    else some (unplaced l)

-- The estimates after the save
abbrev pub replaced : ℕ → List LineDto → ℕ → Estimates → ℕ → Option Line
replaced job dtos user db id =
    or_line
      (map unplaced
        (expected job user (default_tax_rate db.settings) (old_line job db.lines) 0 dtos id))
      (remaining job db id (find_line id db.lines))

existing_line-old :
    (job : ℕ) (lines : List Line)
    → AreDistinct lines
    → (d : LineDto) → existing_line d (lines_of job lines) ≡ old_line job lines d
existing_line-old job lines apart d = by_id d.id refl
  where
    by_id : (o : Option ℕ) → d.id ≡ o → existing_line d (lines_of job lines) ≡ old_line job lines d
    by_id none e = rw e refl
    by_id (some id) e = rw e (find_line-own job id lines apart)

own-some : (job : ℕ) (o : Option Line) → is_some (own job o) ≡ true → is_some o ≡ true
own-some job none h = h
own-some job (some l) h = refl

merged :
    (job id : ℕ) (db : Estimates) (incoming named : Bool) (e o : Option Line)
    → is_some e ≡ named
    → (incoming ≡ true → named ≡ true)
    → (named ≡ true → is_some o ≡ true → incoming ≡ true)
    → (if is_some (own job o) && not incoming
        then dropped db id (or_line e o)
        else map unplaced (or_line e o))
      ≡ or_line (map unplaced e) (remaining job db id o)
merged job id db incoming named none none same sent known = refl
merged job id db true named none (some l) same sent known = cc (sent refl)
merged job id db false named none (some l) same sent known =
    elim (Bool-cases (same_option l.job_id (some job))) [
      | inl its ↦ rw its refl
      | inr other ↦ rw other refl
    ]
merged job id db incoming named (some x) none same sent known = refl
merged job id db incoming named (some x) (some l) same sent known =
    rw (known (sym same) refl) (elim (Bool-cases (same_option l.job_id (some job))) [
      | inl its ↦ rw its refl
      | inr other ↦ rw other refl
    ])

-- A line that the page has
named_row :
    (e rest : Option Line) → is_some e ≡ true → or_line (map unplaced e) rest ≡ map unplaced e
named_row none rest h = cc
named_row (some l) rest h = refl

-- A bulk save of a job's estimate succeeds and does what it promises, line by line: a line that
-- the page sends is there with each field as sent, at its place, with its total and tax and the
-- rate that the page, the old line or the workshop gives; a line of the job that the page leaves
-- out is detached from the job where a decision, a deferred work or the edit history refers to
-- it, and else it is gone; every other line stays as it is. The place of a line outside every job
-- is not looked at. The ids of the lines are distinct, no two lines of the page have one id, and
-- each is one of the job's or has a new id; the job, the user and the inspection responses and
-- concerns that the lines name are there.
pub bulk_replace-replaces :
    (job : ℕ) (dtos : List LineDto) (user : ℕ) (db : Estimates)
    → AreDistinct db.lines
    → all_apart dtos ≡ true
    → all (can_save job db.lines) dtos ≡ true
    → all (refers job user db) dtos ≡ true
    → (db' : Estimates) × (bulk_replace job dtos user db ≡ ok (tt, db'))
      × AreAsSent job user
          (default_tax_rate db.settings)
          (old_line job db.lines)
          (view db'.lines)
          0
          dtos
      × ((id : ℕ) → view db'.lines id ≡ replaced job dtos user db id)
unfolding bulk_replace ◌>>=◌
bulk_replace-replaces job dtos user db distinct apart fit known =
    let default = default_tax_rate db.settings in
    let existing = lines_of job db.lines in
    let old : (λ d. existing_line d existing) ≡ old_line job db.lines =
      λ i d. existing_line-old job db.lines distinct d i in
    let fit' =
      subst
        (λ (f : LineDto → Option Line).
          all (λ d. is_some (f d) || not (has_line (id_of d) db.lines)) dtos ≡ true)
        (sym old) fit in
    let (lines', saved', find') =
      save_lines-find job user default db existing 0 dtos db.lines apart fit' known (λ n h.
        own-some job (find_line n db.lines)
          (subst (λ o. is_some o ≡ true) (find_line-own job n db.lines distinct) h)) in
    let stale = stale_lines dtos existing in
    let after = record db {
      groups = ensure_groups job (group_ids dtos) db.groups;
      lines = drop_stale db (length dtos) stale lines';
    } in
    let rows : (id : ℕ) → view after.lines id ≡ replaced job dtos user db id = λ id.
      let e = expected job user default (λ d. existing_line d existing) 0 dtos id in
      let o = find_line id db.lines in
      let stale_has =
        stale_lines-has dtos id existing
        ∙ ap (λ x. is_some x && not (is_incoming dtos id))
            (find_line-own job id db.lines distinct) in
      drop_stale-view db (length dtos) stale lines' id
      ∙ ap (λ x. if any (λ l. l.id == id) stale then dropped db id x else map unplaced x) (find' id)
      ∙ ap (λ b. if b then dropped db id (or_line e o) else map unplaced (or_line e o)) stale_has
      ∙ merged job id db (is_incoming dtos id) (is_named dtos id) e o
          (expected-some job user default _ 0 dtos id) (incoming-named dtos id)
          (named-incoming existing db.lines dtos id fit')
      ∙ ap
          (λ f.
            or_line (map unplaced (expected job user default f 0 dtos id)) (remaining job db id o))
          old in
    (
      after,
      rw saved' refl,
      expected-AreAsSent job user default (old_line job db.lines) (view after.lines) 0 dtos apart
          (λ id named.
            rows id
            ∙ named_row (expected job user default (old_line job db.lines) 0 dtos id)
                (remaining job db id (find_line id db.lines))
                (expected-some job user default _ 0 dtos id ∙ named)),
      rows,
    )
