-- ===== src/Estimates/Quote.antt =====
-- The estimate of a job after a bulk save, line by line (`bulkReplace` of
-- src/estimates/estimates.service.ts).
use superflow_api.Base.{
  ℕ, ◌+◌, ◌≡◌, refl, ap, ◌∙◌, subst, Bool, true, false, not, ◌&&◌, ◌||◌, Option, none, some, List,
  [], ◌∷◌, arith, ◌==◌, ==_iff, any, all, is_some, if◌then◌else◌, Option-cases, inl, inr, ok, ◌>>=◌,
}
use superflow_api.Estimates.Types.{Line, LineDto, Estimates}
use superflow_api.Estimates.Service.{find_line, has_line, write_line, has_id, is_known, keys_found}
use superflow_api.Estimates.Bulk.{id_of, existing_line, saved, write_or_create, save_lines}
use superflow_api.Estimates.Rows.{find_line-overwrite}

abbrev pub or_line : Option Line → Option Line → Option Line
or_line none b = b
or_line (some a) _ = some a

abbrev pub is_named : List LineDto → ℕ → Bool
is_named dtos id = any (λ d. id_of d == id) dtos

some_kept :
    (b : Bool) (row : Line) (o : Option Line)
    → is_some o ≡ true
    → is_some (if b then some row else o) ≡ true
some_kept true row o h = refl
some_kept false row o h = h

first_or :
    (b : Bool) (row : Line) (later o : Option Line)
    → (b ≡ true → later ≡ none)
    → or_line later (if b then some row else o) ≡ or_line (if b then some row else later) o
first_or true row later o h = rw (h refl) refl
first_or false row later o h = refl

-- No two lines of the page have one id.
abbrev pub all_apart : List LineDto → Bool
all_apart [] = true
all_apart (d ∷ dtos) = not (is_named dtos (id_of d)) && all_apart dtos

-- The rows that a line of the page names are there.
abbrev pub refers : ℕ → ℕ → Estimates → LineDto → Bool
refers job user db d =
    has_id job db.jobs
    && is_known d.inspection_response_id db.responses
    && is_known d.concern_id db.concerns
    && has_id user db.users

module _ (job user default : ℕ) where
  -- The line of an id as the page has it, from place `i` on
  abbrev pub expected : (LineDto → Option Line) → ℕ → List LineDto → ℕ → Option Line
  expected old i [] id = none
  expected old i (d ∷ dtos) id =
      let rest = expected old (i + 1) dtos id in
      if id_of d == id then some (saved job user i default d (old d)) else rest

  expected-unnamed :
      (old : LineDto → Option Line) (i : ℕ) (dtos : List LineDto) (id : ℕ)
      → is_named dtos id ≡ false
      → expected old i dtos id ≡ none
  expected-unnamed old i [] id h = refl
  expected-unnamed old i (d ∷ dtos) id h = ground (arith, expected-unnamed old (i + 1) dtos id)

  module _ (db : Estimates) (existing : List Line) where
    -- A line of the page can be saved: it is one of the job's, or its id is new.
    abbrev pub fits : List Line → LineDto → Bool
    fits lines d = is_some (existing_line d existing) || not (has_line (id_of d) lines)

    abbrev Holds : List Line → Type 0
    Holds lines = (n : ℕ) → is_some (find_line n existing) ≡ true → has_line n lines ≡ true

    existing-has_line :
        (d : LineDto) (lines : List Line)
        → Holds lines
        → is_some (existing_line d existing) ≡ true
        → has_line (id_of d) lines ≡ true
    existing-has_line d lines holds h = by_id d.id refl
      where
        by_id : (o : Option ℕ) → d.id ≡ o → has_line (id_of d) lines ≡ true
        by_id none e = cc (rw e at h)
        by_id (some id) e = rw e (holds id (rw e at h))

    write_or_create-find :
        (i : ℕ) (d : LineDto) (lines : List Line)
        → fits lines d ≡ true
        → refers job user db d ≡ true
        → Holds lines
        → let row = saved job user i default d (existing_line d existing) in
          (lines' : List Line) × (write_or_create db (existing_line d existing) row lines
            ≡ ok lines')
          × ((id : ℕ)
              → find_line id lines' ≡ (if row.id == id then some row else find_line id lines))
    unfolding keys_found
    write_or_create-find i d lines fit known holds =
        elim (Option-cases (existing_line d existing)) [
          | inl none' ↦
              let row = saved job user i default d none in
              let absent : has_line (id_of d) lines ≡ false = ground (arith, fit, none') in
              (row ∷ lines, rw (none', absent, known) refl, λ id. rw none' refl)
          | inr (o, at) ↦
              let row = saved job user i default d (some o) in
              let there = existing-has_line d lines holds (rw at refl) in
              (
                write_line row.id (λ _. row) lines,
                rw (at, known) refl,
                λ id. rw at (find_line-overwrite row id lines there),
              )
        ]

    -- The rest of the page fits the rows after a line of another id is saved.
    still_fits :
        (lines lines' : List Line) (dtos : List LineDto) (k : ℕ)
        → is_named dtos k ≡ false
        → ((id : ℕ) → (k == id) ≡ false → find_line id lines' ≡ find_line id lines)
        → all (fits lines) dtos ≡ true
        → all (fits lines') dtos ≡ true
    still_fits lines lines' [] k apart same h = refl
    still_fits lines lines' (d ∷ dtos) k apart same h =
        let other : (k == id_of d) ≡ false = ground arith in
        let kept : has_line (id_of d) lines' ≡ has_line (id_of d) lines =
          ap is_some (same (id_of d) other) in
        let rest = still_fits lines lines' dtos k (ground arith) same (ground arith) in
        ground (arith, kept, rest)

    pub save_lines-find :
        (i : ℕ) (dtos : List LineDto) (lines : List Line)
        → all_apart dtos ≡ true
        → all (fits lines) dtos ≡ true
        → all (refers job user db) dtos ≡ true
        → Holds lines
        → (lines' : List Line) × (save_lines db job user default existing i dtos lines ≡ ok lines')
          × ((id : ℕ)
              → find_line id lines'
                ≡ or_line (expected (λ d. existing_line d existing) i dtos id) (find_line id lines))
    unfolding save_lines ◌>>=◌
    save_lines-find i [] lines apart fit known holds = (lines, refl, λ id. refl)
    save_lines-find i (d ∷ dtos) lines apart fit known holds =
        let (lines1, written, find1) =
          write_or_create-find i d lines (ground arith) (ground arith) holds in
        let unnamed : is_named dtos (id_of d) ≡ false = ground arith in
        let fit1 =
          still_fits lines lines1 dtos (id_of d) unnamed (λ id other. find1 id ∙ rw other refl)
            (ground arith) in
        let holds1 : Holds lines1 = λ n h.
          ap is_some (find1 n) ∙ some_kept (id_of d == n) _ (find_line n lines) (holds n h) in
        let (lines', saved', find') =
          save_lines-find (i + 1) dtos lines1 (ground arith) fit1 (ground arith) holds1 in
        (
          lines',
          rw written saved',
          λ id.
              find' id
              ∙ ap (or_line (expected (λ x. existing_line x existing) (i + 1) dtos id)) (find1 id)
              ∙ first_or (id_of d == id) _ _ (find_line id lines) λ here.
                expected-unnamed (λ x. existing_line x existing) (i + 1) dtos id
                  (subst (λ n. is_named dtos n ≡ false) ((==_iff (id_of d) id).0 here) unnamed),
        )
