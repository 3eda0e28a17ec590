-- ===== src/Estimates/Kept.antt =====
-- The writes of src/estimates/estimates.service.ts keep the lines that something refers to.
use superflow_api.Base.{
  ℕ, suc, ◌+◌, ◌≡◌, refl, sym, ap, ◌∙◌, Bool, true, false, not, ◌&&◌, Option, none, some, List, [],
  ◌∷◌, arith, ◌==◌, ==_iff, update_where, if◌then◌else◌, Bool-cases, inl, inr, Result, ok, err,
  ◌>>=◌,
}
use superflow_api.Estimates.Types.{Line, LineDto, Estimates, Reason}
use superflow_api.Estimates.Service.{has_line, write_line, without_line, has_references, keys_found}
use superflow_api.Estimates.Bulk.{
  existing_line, saved, write_or_create, save_lines, detached, drop_stale,
}

-- A write that keeps ids keeps the lines.
pub has_line-update :
    (n : ℕ) (p : Line → Bool) (f : Line → Line) (lines : List Line)
    → ((l : Line) → (f l).id ≡ l.id)
    → has_line n (update_where p f lines) ≡ has_line n lines
has_line-update n p f [] keeps = refl
has_line-update n p f (l ∷ lines) keeps = ground (arith, keeps l, has_line-update n p f lines keeps)

has_line-overwrite :
    (n : ℕ) (row : Line) (lines : List Line)
    → has_line n (write_line row.id (λ _. row) lines) ≡ has_line n lines
has_line-overwrite n row [] = refl
has_line-overwrite n row (l ∷ lines) = ground (arith, has_line-overwrite n row lines)

pub has_line-without :
    (n k : ℕ) (lines : List Line)
    → has_line n (without_line k lines) ≡ (not (k == n) && has_line n lines)
has_line-without n k [] = ground arith
has_line-without n k (l ∷ lines) = ground (arith, has_line-without n k lines)

abbrev pub keeps_line : ℕ → Result Reason (List Line) → Bool
keeps_line n (ok lines) = has_line n lines
keeps_line n (err e) = true

keeps_line-bind :
    (n : ℕ) (r : Result Reason (List Line)) (f : List Line → Result Reason (List Line))
    → keeps_line n r ≡ true
    → ((lines : List Line) → has_line n lines ≡ true → keeps_line n (f lines) ≡ true)
    → keeps_line n (r >>= f) ≡ true
unfolding ◌>>=◌
keeps_line-bind n (err e) f kept rest = refl
keeps_line-bind n (ok lines) f kept rest = rest lines kept

write_or_create-keeps :
    (db : Estimates) (n : ℕ) (old : Option Line) (row : Line) (lines : List Line)
    → has_line n lines ≡ true
    → keeps_line n (write_or_create db old row lines) ≡ true
write_or_create-keeps db n (some old) row lines has = elim (Bool-cases (keys_found db row)) [
  | inl known ↦ rw known (has_line-overwrite n row lines ∙ has)
  | inr missing ↦ rw missing refl
]
write_or_create-keeps db n none row lines has = elim (Bool-cases (has_line row.id lines)) [
  | inl taken ↦ rw taken refl
  | inr new ↦ elim (Bool-cases (keys_found db row)) [
    | inl known ↦ rw (new, known) (ground (arith, has))
    | inr missing ↦ rw (new, missing) refl
  ]
]

pub save_lines-keeps :
    (db : Estimates) (job user default : ℕ) (existing : List Line) (i n : ℕ) (dtos : List LineDto)
    (lines : List Line)
    → has_line n lines ≡ true
    → keeps_line n (save_lines db job user default existing i dtos lines) ≡ true
unfolding save_lines ◌>>=◌
save_lines-keeps db job user default existing i n [] lines has = has
save_lines-keeps db job user default existing i n (d ∷ dtos) lines has =
    let old = existing_line d existing in
    let row = saved job user i default d old in
    keeps_line-bind n (write_or_create db old row lines) _
      (write_or_create-keeps db n old row lines has)
      (λ l. save_lines-keeps db job user default existing (i + 1) n dtos l)

pub has_references-apart :
    (k n : ℕ) (db : Estimates)
    → has_references k db ≡ false
    → has_references n db ≡ true
    → (k == n) ≡ false
has_references-apart k n db gone refers = elim (Bool-cases (k == n)) [
  | inl same ↦ cc (sym gone ∙ ap (λ x. has_references x db) ((==_iff k n).0 same) ∙ refers)
  | inr apart ↦ apart
]

drop_one-keeps :
    (db : Estimates) (place n k : ℕ) (lines : List Line)
    → has_references n db ≡ true
    → has_line n lines ≡ true
    → has_line n
        (if has_references k db then write_line k (detached place) lines else without_line k lines)
      ≡ true
drop_one-keeps db place n k lines refers has = elim (Bool-cases (has_references k db)) [
  | inl kept ↦ rw kept (has_line-update n _ (detached place) lines (λ l. refl) ∙ has)
  | inr gone ↦ rw gone (
      let apart : (k == n) ≡ false = has_references-apart k n db gone refers in
      has_line-without n k lines ∙ rw (apart, has) refl)
]

pub drop_stale-keeps :
    (db : Estimates) (place n : ℕ) (stale lines : List Line)
    → has_references n db ≡ true
    → has_line n lines ≡ true
    → has_line n (drop_stale db place stale lines) ≡ true
unfolding drop_stale
drop_stale-keeps db place n [] lines refers has = has
drop_stale-keeps db place n (l ∷ stale) lines refers has =
    drop_stale-keeps db (if has_references l.id db then suc place else place) n stale _ refers
      (drop_one-keeps db place n l.id lines refers has)
