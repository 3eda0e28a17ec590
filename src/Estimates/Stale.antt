-- ===== src/Estimates/Stale.antt =====
-- The stale lines of `bulkReplace` (src/estimates/estimates.service.ts) are the job's that the page
-- does not name.
use superflow_api.Base.{
  ℕ, ◌+◌, ◌≡◌, refl, sym, ap, ◌∙◌, subst, true, not, ◌&&◌, ◌||◌, Option, none, some, List, [], ◌∷◌,
  arith, ◌==◌, ==_iff, keep_if, any, all, is_some, same_option, Bool-cases, inl, inr,
}
use superflow_api.Estimates.Types.{Line, LineDto}
use superflow_api.Estimates.Service.{has_line}
use superflow_api.Estimates.Bulk.{id_of, existing_line, is_incoming}
use superflow_api.Estimates.Quote.{is_named, expected}

any-find : (id : ℕ) (lines : List Line) → any (λ l. l.id == id) lines ≡ has_line id lines
any-find id [] = refl
any-find id (l ∷ lines) = ground (arith, any-find id lines)

abbrev pub stale_lines : List LineDto → List Line → List Line
stale_lines dtos = keep_if (λ l. not (is_incoming dtos l.id))

any-stale :
    (dtos : List LineDto) (id : ℕ) (lines : List Line)
    → any (λ l. l.id == id) (stale_lines dtos lines)
      ≡ (any (λ l. l.id == id) lines && not (is_incoming dtos id))
any-stale dtos id [] = refl
any-stale dtos id (l ∷ lines) = elim (Bool-cases (l.id == id)) [
  | inl here ↦
      let same : is_incoming dtos l.id ≡ is_incoming dtos id =
        ap (is_incoming dtos) ((==_iff l.id id).0 here) in
      elim (Bool-cases (is_incoming dtos id)) [
        | inl sent ↦ rw (same, sent, here) (any-stale dtos id lines ∙ ground (arith, sent))
        | inr unsent ↦ rw (same, unsent, here) (ground (arith, here))
      ]
  | inr there ↦ elim (Bool-cases (is_incoming dtos l.id)) [
    | inl sent ↦ rw (sent, there) (any-stale dtos id lines)
    | inr unsent ↦ rw (unsent, there) (ground (arith, there, any-stale dtos id lines))
  ]
]

pub stale_lines-has :
    (dtos : List LineDto) (id : ℕ) (lines : List Line)
    → any (λ l. l.id == id) (stale_lines dtos lines)
      ≡ (has_line id lines && not (is_incoming dtos id))
stale_lines-has dtos id lines =
    any-stale dtos id lines ∙ ap (λ b. b && not (is_incoming dtos id)) (any-find id lines)

pub expected-some :
    (job user default : ℕ) (old : LineDto → Option Line) (i : ℕ) (dtos : List LineDto) (id : ℕ)
    → is_some (expected job user default old i dtos id) ≡ is_named dtos id
expected-some job user default old i [] id = refl
expected-some job user default old i (d ∷ dtos) id =
    ground (arith, expected-some job user default old (i + 1) dtos id)

incoming_id : (d : LineDto) (id : ℕ) → same_option d.id (some id) ≡ true → (id_of d == id) ≡ true
incoming_id d id h = by_id d.id refl
  where
    by_id : (o : Option ℕ) → d.id ≡ o → (id_of d == id) ≡ true
    by_id none e = cc (rw e at h)
    by_id (some k) e = rw e (rw e at h)

pub incoming-named :
    (dtos : List LineDto) (id : ℕ) → is_incoming dtos id ≡ true → is_named dtos id ≡ true
incoming-named [] id h = h
incoming-named (d ∷ dtos) id h = ground (arith, incoming_id d id, incoming-named dtos id)

named_id :
    (existing lines : List Line) (d : LineDto) (id : ℕ)
    → (is_some (existing_line d existing) || not (has_line (id_of d) lines)) ≡ true
    → (id_of d == id) ≡ true
    → has_line id lines ≡ true
    → same_option d.id (some id) ≡ true
named_id existing lines d id fit named has = by_id d.id refl
  where
    by_id : (o : Option ℕ) → d.id ≡ o → same_option d.id (some id) ≡ true
    by_id none e =
        let taken : has_line (id_of d) lines ≡ true =
          subst (λ n. has_line n lines ≡ true) (sym ((==_iff (id_of d) id).0 named)) has in
        cc (rw (e, rw e at taken) at fit)
    by_id (some k) e = rw e (rw e at named)

-- A line that the page names and that exists is one that the page sends by its id.
pub named-incoming :
    (existing lines : List Line) (dtos : List LineDto) (id : ℕ)
    → all (λ d. is_some (existing_line d existing) || not (has_line (id_of d) lines)) dtos ≡ true
    → is_named dtos id ≡ true
    → has_line id lines ≡ true
    → is_incoming dtos id ≡ true
named-incoming existing lines [] id fit named has = cc
named-incoming existing lines (d ∷ dtos) id fit named has =
    ground (arith, named_id existing lines d id, named-incoming existing lines dtos id)
