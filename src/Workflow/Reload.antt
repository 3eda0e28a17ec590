-- ===== src/Workflow/Reload.antt =====
-- The stages that are saved and the stages that are read (src/admin/workflow.service.ts).
use mathlib.Core.List.{map}
use superflow_api.Base.{
  ℕ, ◌+◌, ◌≡◌, refl, sym, ap, ◌∙◌, subst, Bool, true, false, not, ◌&&◌, Option, none, some, List,
  [], ◌∷◌, arith, all, Result, ok, err, ◌>>=◌, >>=-eq-ok, throw_if-eq-ok, ok_inj,
}
use superflow_api.Base.Text.{Text}
use superflow_api.Workflow.Types.{RawStage, Input, not_array, items, StageConfig, Reason}
use superflow_api.Workflow.Service.{
  normalize_items, sort_stages, covers, normalize_stages, get_stages, raw_of, save_stages,
  update_stages, has_key,
}
use superflow_api.Workflow.Order.{
  in_order, in_order-sort_stages, sort_stages-again, all-sort_stages, has_stage, same_text-swap,
  all_apart, all_apart-sort_stages,
}
use superflow_api.Workflow.Fixed.{is_settled, is_fixed, normalize_item-made, normalize_item-raw_of}

not-false : (b : Bool) → not b ≡ false → b ≡ true
not-false true h = refl
not-false false h = cc

-- No stage has a key that has been seen.
abbrev all_new : List Text → List StageConfig → Bool
all_new seen = all (λ s. not (has_key s.key seen))

all_new-cons :
    (key : Text) (seen : List Text) (stages : List StageConfig)
    → all_new (key ∷ seen) stages ≡ (not (has_stage key stages) && all_new seen stages)
all_new-cons key seen [] = refl
all_new-cons key seen (s ∷ stages) =
    ground (arith, all_new-cons key seen stages, same_text-swap s.key key)

normalize_items-made :
    (index : ℕ) (seen : List Text) (raws : List RawStage) (stages : List StageConfig)
    → normalize_items index seen raws ≡ ok stages
    → (all_apart stages ≡ true)
      × (all_new seen stages ≡ true)
      × (all is_settled stages ≡ true → all is_fixed stages ≡ true)
unfolding normalize_items
normalize_items-made index seen [] stages made =
    subst
      (λ x.
        (all_apart x ≡ true)
        × (all_new seen x ≡ true)
        × (all is_settled x ≡ true → all is_fixed x ≡ true))
      (ok_inj made) (refl, refl, λ h. h)
normalize_items-made index seen (item ∷ raws) stages made =
    let (stage, first, made1) = >>=-eq-ok _ _ made in
    let (rest, later, made2) = >>=-eq-ok _ _ made1 in
    let (new, fixed) = normalize_item-made index seen item stage first in
    let (apart, all_are_new, all_fixed) =
      normalize_items-made (index + 1) (stage.key ∷ seen) raws rest later in
    let split = sym (all_new-cons stage.key seen rest) ∙ all_are_new in
    subst
      (λ x.
        (all_apart x ≡ true)
        × (all_new seen x ≡ true)
        × (all is_settled x ≡ true → all is_fixed x ≡ true))
      (ok_inj made2)
      (
        ground (arith, split, apart),
        ground (arith, new, split),
        λ h. ground (arith, fixed, all_fixed, h),
      )

normalize_items-raw_of :
    (index : ℕ) (seen : List Text) (stages : List StageConfig)
    → all_apart stages ≡ true
    → all_new seen stages ≡ true
    → all is_fixed stages ≡ true
    → normalize_items index seen (map raw_of stages) ≡ ok stages
unfolding normalize_items ◌>>=◌
normalize_items-raw_of index seen [] apart new fixed = refl
normalize_items-raw_of index seen (s ∷ stages) apart new fixed =
    let first = normalize_item-raw_of index seen s (ground arith) (ground arith) in
    let split : (not (has_stage s.key stages) && all_new seen stages) ≡ true = ground arith in
    let unseen : all_new (s.key ∷ seen) stages ≡ true = all_new-cons s.key seen stages ∙ split in
    let rest =
      normalize_items-raw_of (index + 1) (s.key ∷ seen) stages (ground arith) unseen
        (ground arith) in
    rw (first, rest) refl

-- The stages that `normalizeStages` returns, before they are sorted
normalize_stages-made :
    (input : Input) (stages : List StageConfig)
    → normalize_stages input ≡ ok stages
    → (read : List StageConfig) × (sort_stages read ≡ stages)
      × (all_apart read ≡ true)
      × (all_new [] read ≡ true)
      × (all is_settled read ≡ true → all is_fixed read ≡ true)
      × (covers (sort_stages read) ≡ true)
unfolding normalize_stages ◌>>=◌
normalize_stages-made not_array stages made = cc
normalize_stages-made (items raws) stages made =
    let (read, one_by_one, made1) = >>=-eq-ok _ _ made in
    let (_, covered, made2) = >>=-eq-ok _ _ made1 in
    let (apart, new, fixed) = normalize_items-made 0 [] raws read one_by_one in
    (read, ok_inj made2, apart, new, fixed, not-false _ (throw_if-eq-ok _ _ covered))

sorted-again :
    (read : List StageConfig)
    → all_apart read ≡ true
    → all_new [] read ≡ true
    → all is_fixed read ≡ true
    → covers (sort_stages read) ≡ true
    → normalize_stages (items (map raw_of (sort_stages read))) ≡ ok (sort_stages read)
unfolding normalize_stages ◌>>=◌
sorted-again read apart new fixed covered =
    let sorted = sort_stages read in
    let again =
      normalize_items-raw_of 0 [] sorted (all_apart-sort_stages read ∙ apart)
        (all-sort_stages (λ s. not (has_key s.key [])) read ∙ new)
        (all-sort_stages is_fixed read ∙ fixed) in
    rw (again, sort_stages-again sorted (in_order-sort_stages read), covered) refl

-- A configuration of stages that is saved is the one that is read back, each stage with every
-- field and in its place, though reading normalises it once more; that is, if no key or label of
-- it has been cut off at its limit and no label is blank.
pub update_stages-get_stages :
    (input : Input) (setting : Option Input) (stages : List StageConfig) (setting' : Option Input)
    → update_stages input setting ≡ ok (stages, setting')
    → all is_settled stages ≡ true
    → get_stages setting' ≡ stages
unfolding update_stages save_stages get_stages
update_stages-get_stages input setting stages setting' updated settled =
    let (made, normal, done) = >>=-eq-ok _ _ updated in
    let same : made ≡ stages = ap (λ p. p.0) (ok_inj done) in
    let stored : some (items (map raw_of made)) ≡ setting' = ap (λ p. p.1) (ok_inj done) in
    let (read, sorted, apart, new, fixed, covered) = normalize_stages-made input made normal in
    let settled_read : all is_settled read ≡ true =
      sym (all-sort_stages is_settled read) ∙ ap (all is_settled) (sorted ∙ same) ∙ settled in
    let again : normalize_stages (items (map raw_of stages)) ≡ ok stages =
      subst (λ x. normalize_stages (items (map raw_of x)) ≡ ok x) (sorted ∙ same)
        (sorted-again read apart new (fixed settled_read) covered) in
    sym (ap get_stages stored)
    ∙ ap (λ x. get_stages (some (items (map raw_of x)))) same
    ∙ rw again refl

abbrev pub is_lawful : List StageConfig → Bool
is_lawful stages = all_apart stages && in_order stages && covers stages

normalize_stages-lawful :
    (input : Input) (stages : List StageConfig)
    → normalize_stages input ≡ ok stages
    → is_lawful stages ≡ true
normalize_stages-lawful input stages normal =
    let (read, sorted, apart, new, fixed, covered) = normalize_stages-made input stages normal in
    subst (λ x. is_lawful x ≡ true) sorted
      (rw (all_apart-sort_stages read ∙ apart, in_order-sort_stages read, covered) refl)

-- Whatever the setting holds, the stages that a workshop works with have keys of which no two are
-- alike, are in the order of their places, and include an active required stage of each required
-- category.
pub get_stages-lawful : (setting : Option Input) → is_lawful (get_stages setting) ≡ true
unfolding get_stages
get_stages-lawful none = refl
get_stages-lawful (some input) = by_result (normalize_stages input) refl
  where
    by_result :
        (r : Result Reason (List StageConfig))
        → normalize_stages input ≡ r
        → is_lawful (get_stages (some input)) ≡ true
    by_result (ok stages) e = rw e (normalize_stages-lawful input stages e)
    by_result (err x) e = rw e refl
