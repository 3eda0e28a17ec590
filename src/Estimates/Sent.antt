-- ===== src/Estimates/Sent.antt =====
-- What the page of an estimate sends is what is saved: the lines of `bulkReplace`
-- (src/estimates/estimates.service.ts), field by field.
use mathlib.Core.Option.{map}
use superflow_api.Base.{
  ℕ, ◌+◌, ◌*◌, ◌≡◌, refl, ap, ◌∙◌, true, false, ◌||◌, Option, none, some, List, [], ◌∷◌, arith,
  ◌==◌, ==_iff, is_some, or_else, if◌then◌else◌, Bool-cases, inl, inr,
}
use superflow_api.Base.Int.{pos, ◌-ℤ◌, ◌*ℤ◌}
use superflow_api.Estimates.Types.{labour, Line, LineDto}
use superflow_api.Estimates.Service.{total_of, tax_of}
use superflow_api.Estimates.Bulk.{id_of, saved, rate_of}
use superflow_api.Estimates.Quote.{expected, is_named, all_apart}
use superflow_api.Estimates.Dropping.{unplaced}

-- The rate of a line: what the page sends, and else the old line's rate or the workshop's; a new
-- line of which the page sends 0 has the workshop's too.
abbrev sent_rate : Option ℕ → Option Line → ℕ → ℕ
sent_rate none none default = default
sent_rate none (some old) default = or_else old.tax_rate_pct default
sent_rate (some r) none default = if r == 0 then default else r
sent_rate (some r) (some old) default = r

-- The line is what the page sends, at its place, with its total and tax.
pub record IsAsSent (job user place default : ℕ) (d : LineDto) (old : Option Line) (l : Line)
    : Type 0 where
  pub own_id : l.id ≡ or_else d.id d.fresh
  pub of_job : l.job_id ≡ some job
  pub at_place : l.sort_order ≡ place
  pub same_kind : l.kind ≡ or_else d.kind labour
  pub same_text : l.description ≡ some (or_else d.description 0)
  pub same_part : l.part_number ≡ d.part_number
  pub same_quantity : l.quantity ≡ or_else d.quantity 100
  pub same_price : l.unit_price ≡ or_else d.unit_price 0
  pub same_discount : l.discount_pct ≡ or_else d.discount_pct 0
  pub rate : l.tax_rate_pct ≡ some (sent_rate d.tax_rate_pct old default)
  pub total :
      l.line_total
      ≡ pos (or_else d.quantity 100 * or_else d.unit_price 0)
        *ℤ (pos 10000 -ℤ pos (or_else d.discount_pct 0))
  pub tax : l.tax_amount ≡ l.line_total *ℤ pos (sent_rate d.tax_rate_pct old default)
  pub recommended :
      l.is_recommended ≡ (is_some d.inspection_response_id || or_else d.is_recommended false)
  pub by_user : l.added_by ≡ user
  pub same_response : l.inspection_response_id ≡ d.inspection_response_id
  pub same_group : l.quote_group_id ≡ d.quote_group_id
  pub same_concern : l.concern_id ≡ d.concern_id

-- Each line of the page, from place `i` on
abbrev pub AreAsSent :
    ℕ → ℕ → ℕ → (LineDto → Option Line) → (ℕ → Option Line) → ℕ → List LineDto → Type 0
AreAsSent job user default old rows i [] = Unit
AreAsSent job user default old rows i (d ∷ dtos) =
    ((l : Line) × (rows (or_else d.id d.fresh) ≡ some l) × IsAsSent job user i default d (old d) l)
    × AreAsSent job user default old rows (i + 1) dtos

rate_of-sent :
    (dto : LineDto) (sent : Option ℕ) (old : Option Line) (default : ℕ)
    → dto.tax_rate_pct ≡ sent
    → rate_of dto old default ≡ sent_rate sent old default
rate_of-sent dto none none default e = rw e refl
rate_of-sent dto none (some old) default e = rw e refl
rate_of-sent dto (some r) none default e = rw e (ground arith)
rate_of-sent dto (some r) (some old) default e = rw e refl

saved-IsAsSent :
    (job user place default : ℕ) (d : LineDto) (old : Option Line)
    → IsAsSent job user place default d old (unplaced (saved job user place default d old))
unfolding total_of tax_of
saved-IsAsSent job user place default d old = record {
  own_id = refl;
  of_job = refl;
  at_place = refl;
  same_kind = refl;
  same_text = refl;
  same_part = refl;
  same_quantity = refl;
  same_price = refl;
  same_discount = refl;
  rate = ap some (rate_of-sent d d.tax_rate_pct old default refl);
  total = refl;
  tax =
      ap (λ r. (saved job user place default d old).line_total *ℤ pos r)
        (rate_of-sent d d.tax_rate_pct old default refl);
  recommended = refl;
  by_user = refl;
  same_response = refl;
  same_group = refl;
  same_concern = refl;
}

-- Rows that have the line of each id as the page has it
pub expected-AreAsSent :
    (job user default : ℕ) (old : LineDto → Option Line) (rows : ℕ → Option Line) (i : ℕ)
    (dtos : List LineDto)
    → all_apart dtos ≡ true
    → ((id : ℕ)
        → is_named dtos id ≡ true
        → rows id ≡ map unplaced (expected job user default old i dtos id))
    → AreAsSent job user default old rows i dtos
expected-AreAsSent job user default old rows i [] apart same = tt
expected-AreAsSent job user default old rows i (d ∷ dtos) apart same =
    let self : (id_of d == id_of d) ≡ true = ground arith in
    (
      (
        unplaced (saved job user i default d (old d)),
        same (id_of d) (ground arith) ∙ rw self refl,
        saved-IsAsSent job user i default d (old d),
      ),
      expected-AreAsSent job user default old rows (i + 1) dtos (ground arith) λ id named.
          let other : (id_of d == id) ≡ false = apart_from id named in
          same id (ground arith) ∙ rw other refl,
    )
  where
    apart_from : (id : ℕ) → is_named dtos id ≡ true → (id_of d == id) ≡ false
    apart_from id named = elim (Bool-cases (id_of d == id)) [
      | inl here ↦
          let free : is_named dtos (id_of d) ≡ false = ground arith in
          cc (free, named, (==_iff (id_of d) id).0 here)
      | inr there ↦ there
    ]
