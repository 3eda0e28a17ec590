-- ===== src/Estimates/Rows.antt =====
-- What the writes of `bulkReplace` do to the row of an id (src/estimates/estimates.service.ts).
use mathlib.Core.Option.{map}
use superflow_api.Base.{
  ℕ, ◌≡◌, refl, subst, true, false, Option, none, some, List, [], ◌∷◌, arith, ◌==◌, ==_iff,
  same_option, if◌then◌else◌, Bool-cases, inl, inr,
}
use superflow_api.Estimates.Types.{Line}
use superflow_api.Estimates.Service.{find_line, has_line, write_line, without_line}
use superflow_api.Estimates.Bulk.{lines_of}

abbrev pub AreDistinct : List Line → Type 0
AreDistinct [] = Unit
AreDistinct (l ∷ lines) = (has_line l.id lines ≡ false) × AreDistinct lines

pub find_line-write :
    (k id : ℕ) (f : Line → Line) (lines : List Line)
    → ((l : Line) → (f l).id ≡ l.id)
    → find_line id (write_line k f lines)
      ≡ map (λ l. if id == k then f l else l) (find_line id lines)
find_line-write k id f [] keeps = refl
find_line-write k id f (l ∷ lines) keeps = elim (Bool-cases (l.id == k)) [
  | inl here ↦ rw here (ground (arith, keeps l, here, find_line-write k id f lines keeps))
  | inr there ↦ rw there (ground (arith, there, find_line-write k id f lines keeps))
]

overwrite_self :
    (row : Line) (lines : List Line)
    → has_line row.id lines ≡ true
    → find_line row.id (write_line row.id (λ _. row) lines) ≡ some row
overwrite_self row [] h = cc
overwrite_self row (l ∷ lines) h = elim (Bool-cases (l.id == row.id)) [
  | inl here ↦ rw here (ground arith)
  | inr there ↦ rw there (ground (arith, there, overwrite_self row lines))
]

overwrite_other :
    (row : Line) (id : ℕ) (lines : List Line)
    → (row.id == id) ≡ false
    → find_line id (write_line row.id (λ _. row) lines) ≡ find_line id lines
overwrite_other row id [] h = refl
overwrite_other row id (l ∷ lines) h = elim (Bool-cases (l.id == row.id)) [
  | inl here ↦ rw here (ground (arith, here, h, overwrite_other row id lines))
  | inr there ↦ rw there (ground (arith, there, h, overwrite_other row id lines))
]

pub find_line-overwrite :
    (row : Line) (id : ℕ) (lines : List Line)
    → has_line row.id lines ≡ true
    → find_line id (write_line row.id (λ _. row) lines)
      ≡ (if row.id == id then some row else find_line id lines)
find_line-overwrite row id lines h = elim (Bool-cases (row.id == id)) [
  | inl here ↦ rw here (
      subst (λ n. find_line n (write_line row.id (λ _. row) lines) ≡ some row)
        ((==_iff row.id id).0 here) (overwrite_self row lines h))
  | inr there ↦ rw there (overwrite_other row id lines there)
]

pub find_line-without :
    (k id : ℕ) (lines : List Line)
    → find_line id (without_line k lines) ≡ (if id == k then none else find_line id lines)
find_line-without k id [] = ground arith
find_line-without k id (l ∷ lines) = ground (arith, find_line-without k id lines)

-- The line, if it is the job's
abbrev pub own : ℕ → Option Line → Option Line
own job none = none
own job (some l) = if same_option l.job_id (some job) then some l else none

find_line-absent :
    (job id : ℕ) (lines : List Line)
    → has_line id lines ≡ false
    → find_line id (lines_of job lines) ≡ none
find_line-absent job id [] h = refl
find_line-absent job id (l ∷ lines) h = ground (arith, find_line-absent job id lines)

pub find_line-own :
    (job id : ℕ) (lines : List Line)
    → AreDistinct lines
    → find_line id (lines_of job lines) ≡ own job (find_line id lines)
find_line-own job id [] d = refl
find_line-own job id (l ∷ lines) (apart, d) = elim (Bool-cases (l.id == id)) [
  | inl here ↦
      let absent =
        find_line-absent job id lines
          (subst (λ n. has_line n lines ≡ false) ((==_iff l.id id).0 here) apart) in
      elim (Bool-cases (same_option l.job_id (some job))) [
        | inl its ↦ rw (here, its) (ground (arith, here))
        | inr other ↦ rw (here, other) absent
      ]
  | inr there ↦ elim (Bool-cases (same_option l.job_id (some job))) [
    | inl its ↦ rw (there, its) (ground (arith, there, find_line-own job id lines d))
    | inr other ↦ rw (there, other) (find_line-own job id lines d)
  ]
]
