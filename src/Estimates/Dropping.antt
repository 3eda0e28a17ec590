-- ===== src/Estimates/Dropping.antt =====
-- What becomes of the lines that a bulk save leaves out (`bulkReplace` of
-- src/estimates/estimates.service.ts). The place of a line counts only in a job.
use mathlib.Core.Option.{map}
use superflow_api.Base.{
  ℕ, suc, ◌≡◌, refl, sym, ap, ◌∙◌, subst, Bool, true, false, ◌||◌, Option, none, some, List, [],
  ◌∷◌, arith, ◌==◌, ==_iff, any, is_some, if◌then◌else◌, Bool-cases, inl, inr,
}
use superflow_api.Estimates.Types.{Line, Estimates}
use superflow_api.Estimates.Service.{find_line, write_line, without_line, has_references}
use superflow_api.Estimates.Bulk.{detached, drop_stale}
use superflow_api.Estimates.Rows.{find_line-write, find_line-without}

abbrev pub unplaced : Line → Line
unplaced l = record l { sort_order = if is_some l.job_id then l.sort_order else 0 }

abbrev pub view : List Line → ℕ → Option Line
view lines id = map unplaced (find_line id lines)

-- What becomes of a stale line
abbrev pub dropped : Estimates → ℕ → Option Line → Option Line
dropped db id o = if has_references id db then map (λ l. unplaced (detached 0 l)) o else none

drop_one : Estimates → ℕ → ℕ → List Line → List Line
drop_one db place k lines =
    if has_references k db then write_line k (detached place) lines else without_line k lines

map-map :
    (f g h : Line → Line) (o : Option Line)
    → ((l : Line) → f (g l) ≡ h l)
    → map f (map g o) ≡ map h o
map-map f g h none same = refl
map-map f g h (some l) same = ap some (same l)

map_same :
    (f : Line → Line) (g : Line → Line) (o : Option Line)
    → ((l : Line) → f l ≡ g l)
    → map f o ≡ map g o
map_same f g none same = refl
map_same f g (some l) same = ap some (same l)

map_id : (f : Line → Line) (o : Option Line) → ((l : Line) → f l ≡ l) → map f o ≡ o
map_id f none same = refl
map_id f (some l) same = ap some (same l)

drop_one-own :
    (db : Estimates) (place id : ℕ) (lines : List Line)
    → find_line id (drop_one db place id lines)
      ≡ (if has_references id db then map (detached place) (find_line id lines) else none)
unfolding drop_one
drop_one-own db place id lines =
    let self : (id == id) ≡ true = ground arith in
    elim (Bool-cases (has_references id db)) [
      | inl kept ↦ rw kept (
          find_line-write id id (detached place) lines (λ l. refl)
          ∙ map_same _ (detached place) (find_line id lines) (λ l. rw self refl))
      | inr gone ↦ rw gone (find_line-without id id lines ∙ rw self refl)
    ]

drop_one-other :
    (db : Estimates) (place k id : ℕ) (lines : List Line)
    → (k == id) ≡ false
    → find_line id (drop_one db place k lines) ≡ find_line id lines
unfolding drop_one
drop_one-other db place k id lines apart =
    let other : (id == k) ≡ false = ground arith in
    elim (Bool-cases (has_references k db)) [
      | inl kept ↦ rw kept (
          find_line-write k id (detached place) lines (λ l. refl)
          ∙ map_id _ (find_line id lines) (λ l. rw other refl))
      | inr gone ↦ rw gone (find_line-without k id lines ∙ rw other refl)
    ]

drop_one-find :
    (db : Estimates) (place k id : ℕ) (lines : List Line)
    → find_line id (drop_one db place k lines) ≡ (
        if k == id
        then (if has_references id db then map (detached place) (find_line id lines) else none)
        else find_line id lines)
drop_one-find db place k id lines = elim (Bool-cases (k == id)) [
  | inl here ↦ rw here (
      subst
        (λ n.
          find_line id (drop_one db place n lines)
          ≡ (if has_references id db then map (detached place) (find_line id lines) else none))
        (sym ((==_iff k id).0 here)) (drop_one-own db place id lines))
  | inr there ↦ rw there (drop_one-other db place k id lines there)
]

dropped_twice :
    (place : ℕ) (here later kept : Bool) (o : Option Line)
    → (let after = if here then (if kept then map (detached place) o else none) else o in
        if later
        then (if kept then map (λ l. unplaced (detached 0 l)) after else none)
        else map unplaced after)
      ≡ (if here || later
          then (if kept then map (λ l. unplaced (detached 0 l)) o else none)
          else map unplaced o)
dropped_twice place true true true o = map-map _ _ _ o (λ l. refl)
dropped_twice place true true false o = refl
dropped_twice place true false true o = map-map _ _ _ o (λ l. refl)
dropped_twice place true false false o = refl
dropped_twice place false true true o = refl
dropped_twice place false true false o = refl
dropped_twice place false false kept o = refl

pub drop_stale-view :
    (db : Estimates) (place : ℕ) (stale lines : List Line) (id : ℕ)
    → view (drop_stale db place stale lines) id
      ≡ (if any (λ l. l.id == id) stale then dropped db id (find_line id lines) else view lines id)
unfolding drop_stale drop_one
drop_stale-view db place [] lines id = refl
drop_stale-view db place (l ∷ stale) lines id =
    drop_stale-view db (if has_references l.id db then suc place else place) stale
      (drop_one db place l.id lines) id
    ∙ ap (λ o. if any (λ x. x.id == id) stale then dropped db id o else map unplaced o)
        (drop_one-find db place l.id id lines)
    ∙ dropped_twice place (l.id == id) (any (λ x. x.id == id) stale) (has_references id db)
        (find_line id lines)
