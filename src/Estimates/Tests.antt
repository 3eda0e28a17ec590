-- ===== src/Estimates/Tests.antt =====
-- The estimate of job 7 at concrete lines (src/estimates/estimates.service.ts).
use mathlib.Core.Option.{map}
use superflow_api.Base.{
  ℕ, ◌≡◌, refl, true, false, none, some, List, [], ◌∷◌, ok, ◌>>=◌, ◌==◌, ◌&&◌, not, ==_iff,
  Bool-cases, inl, inr, subst,
}
use superflow_api.Base.Int.{pos}
use superflow_api.Estimates.Types.{labour, part, Line, LineDto, UpdateLineDto, Estimates}
use superflow_api.Estimates.Service.{
  default_tax_rate, has_references, update_line, write_update, keys_found, remove_line, has_line,
}
use superflow_api.Estimates.Bulk.{save_lines, drop_stale, ensure_groups, bulk_replace}
use superflow_api.Estimates.Dropping.{view}
use superflow_api.Estimates.Sent.{AreAsSent}
use superflow_api.Estimates.Replacement.{old_line, replaced, bulk_replace-replaces}
use superflow_api.Estimates.References.{
  EstimateCall, update_of, remove_of, bulk_of, answer, after_calls, AreFound, finds,
  after_calls-finds,
}

abbrev brake_pads : Line
brake_pads = record {
  id = 1;
  job_id = some 7;
  inspection_response_id = none;
  quote_group_id = none;
  concern_id = none;
  kind = part;
  description = some 11;
  part_number = some 4711;
  quantity = 200;
  unit_price = 8000;
  discount_pct = 0;
  tax_rate_pct = some 500;
  line_total = pos 16000000000;
  tax_amount = pos 8000000000000;
  is_recommended = false;
  sort_order = 0;
  added_by = 3;
}

-- Three lines of job 7, of which a customer has approved line 2, and one of job 8
abbrev four_lines : Estimates
four_lines = record {
  lines =
      brake_pads
      ∷ record brake_pads { id = 2; sort_order = 1 }
      ∷ record brake_pads { id = 3; sort_order = 2 }
      ∷ record brake_pads { id = 4; job_id = some 8 }
      ∷ [];
  groups = [];
  decisions = 2 ∷ [];
  deferred = [];
  history = [];
  settings = record { default_tax_rate = none; tax_rate = some 1500 };
  jobs = 7 ∷ 8 ∷ [];
  concerns = [];
  responses = [];
  users = 3 ∷ [];
}

abbrev no_change : LineDto
no_change = record {
  id = none;
  fresh = 20;
  kind = none;
  description = none;
  part_number = none;
  quantity = none;
  unit_price = none;
  discount_pct = none;
  tax_rate_pct = none;
  is_recommended = none;
  inspection_response_id = none;
  quote_group_id = none;
  concern_id = none;
}

abbrev no_edit : UpdateLineDto
no_edit = record {
  description = none;
  part_number = none;
  quantity = none;
  unit_price = none;
  discount_pct = none;
  tax_rate_pct = none;
  is_recommended = none;
  quote_group_id = none;
  concern_id = none;
}

-- The page drops lines 2 and 3, halves the quantity of line 1 and adds an hour of labour.
abbrev two_sent : List LineDto
two_sent =
    record no_change { kind = some labour; unit_price = some 15000; tax_rate_pct = some 0 }
    ∷ record no_change {
      id = some 1;
      kind = some part;
      quantity = some 100;
      unit_price = some 8000;
    }
    ∷ []

bulk_replace-replaces_example :
    (db' : Estimates) × (bulk_replace 7 two_sent 3 four_lines ≡ ok (tt, db'))
    × AreAsSent 7 3
        (default_tax_rate four_lines.settings)
        (old_line 7 four_lines.lines)
        (view db'.lines)
        0
        two_sent
    × ((id : ℕ) → view db'.lines id ≡ replaced 7 two_sent 3 four_lines id)
bulk_replace-replaces_example =
    bulk_replace-replaces 7 two_sent 3 four_lines (refl, (refl, (refl, (refl, tt)))) refl refl refl

-- The new line takes the rate of the workshop, for which the page has sent 0.
new_rate : map (λ l. l.tax_rate_pct) (replaced 7 two_sent 3 four_lines 20) ≡ some (some 1500)
unfolding default_tax_rate
new_rate = refl

abbrev some_calls : List (ℕ × EstimateCall)
some_calls =
    (3, bulk_of 7 two_sent)
    ∷ (3, update_of 20 (record no_edit { quantity = some (some 300) }))
    ∷ (3, remove_of 20)
    ∷ (3, remove_of 1)
    ∷ []

four_lines-found : AreFound four_lines
unfolding has_references
four_lines-found n = elim (Bool-cases (2 == n)) [
  | inl here ↦ subst (λ k. finds four_lines k ≡ true) ((==_iff 2 n).0 here) refl
  | inr apart ↦ rw apart refl
]

after_calls-finds_example : AreFound (after_calls some_calls four_lines)
after_calls-finds_example = after_calls-finds some_calls four_lines four_lines-found

-- A line that has been edited stays, another goes.
lines_left :
    let lines = (after_calls some_calls four_lines).lines in
    (has_line 20 lines && has_line 2 lines && not (has_line 1 lines) && not (has_line 3 lines))
    ≡ true
unfolding after_calls answer bulk_replace save_lines drop_stale ensure_groups update_line
    write_update keys_found remove_line has_references default_tax_rate ◌>>=◌
lines_left = refl
