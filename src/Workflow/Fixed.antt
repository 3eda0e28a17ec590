-- ===== src/Workflow/Fixed.antt =====
-- A stage that `normalizeStages` has returned is returned as it is when it is sent again
-- (src/admin/workflow.service.ts), unless its key or label has been cut off or its label is blank.
use superflow_api.Base.{
  ℕ, zero, suc, ◌≡◌, refl, sym, ap, ◌∙◌, subst, Bool, true, false, not, ◌&&◌, some, List, [], ◌∷◌,
  arith, ltb, all, keep_if, take, length, ok, ◌>>=◌, >>=-eq-ok, throw_if-eq-ok, ok_inj,
}
use superflow_api.Base.Text.{Text, codes, same_text, same_text_iff, trim, is_space}
use superflow_api.Base.Trim.{is_none, trim_by-again, take-short, take-again}
use superflow_api.Base.Keys.{key_text-again}
use superflow_api.Jobs.Status.{
  JobStatus, booked, checking, estimate_sent, approved, in_progress, waiting_parts, quality_check,
  ready, closed, no_show,
}
use superflow_api.Jobs.Types.{Category, as_booked, as_active, as_ready, as_closed, as_cancelled}
use superflow_api.Jobs.Stages.{category_for_status}
use superflow_api.Workflow.Types.{
  RawStage, StageConfig, status_name, category_name, status_of, category_of,
}
use superflow_api.Workflow.Service.{
  text_or, normalize_key, is_color_char, color_of, has_key, normalize_item, raw_of, spaced,
}

-- The key and the label have not been cut off, and the label is not blank.
abbrev pub is_settled : StageConfig → Bool
is_settled s = ltb (length s.key) 80 && ltb (length s.label) 80 && not (is_none s.label)

-- What `normalizeStages` makes of each text of the stage is the text.
abbrev fixed_texts : Text → Text → Text → Text → Bool
fixed_texts key label description color =
    same_text (normalize_key key) key
    && not (is_none key)
    && same_text (take 80 (trim label)) label
    && not (is_none label)
    && same_text (take 240 description) description
    && same_text (color_of color) color

abbrev pub is_fixed : StageConfig → Bool
is_fixed s = fixed_texts s.key s.label s.description s.color

same_text_self : (s t : Text) → s ≡ t → same_text s t ≡ true
same_text_self s t same = (same_text_iff s t).1 same

label-again :
    (t : Text)
    → ltb (length (take 80 (trim t))) 80 ≡ true
    → take 80 (trim (take 80 (trim t))) ≡ take 80 (trim t)
unfolding trim
label-again t short =
    ap (λ x. take 80 (trim x)) (take-short 80 (trim t) short)
    ∙ ap (take 80) (trim_by-again is_space t)

keep_if-all : (p : ℕ → Bool) (s : Text) → all p s ≡ true → keep_if p s ≡ s
keep_if-all p [] h = refl
keep_if-all p (c ∷ s) h = ground (arith, keep_if-all p s)

all-keep_if : (p : ℕ → Bool) (s : Text) → all p (keep_if p s) ≡ true
all-keep_if p [] = refl
all-keep_if p (c ∷ s) = ground (arith, all-keep_if p s)

all-take : (p : ℕ → Bool) (n : ℕ) (s : Text) → all p s ≡ true → all p (take n s) ≡ true
all-take p zero s h = refl
all-take p (suc n) [] h = refl
all-take p (suc n) (c ∷ s) h = ground (arith, all-take p n s)

color_of-again : (c : Text) → color_of (color_of c) ≡ color_of c
color_of-again c = by_cut (take 24 (keep_if is_color_char (text_or c (codes "slate")))) refl
  where
    by_cut :
        (t : Text)
        → take 24 (keep_if is_color_char (text_or c (codes "slate"))) ≡ t
        → color_of (text_or t (codes "slate")) ≡ text_or t (codes "slate")
    by_cut [] e = refl
    by_cut (d ∷ t) e =
        let kept = text_or c (codes "slate") in
        let colored =
          subst (λ x. all is_color_char x ≡ true) e
            (all-take is_color_char 24 (keep_if is_color_char kept)
              (all-keep_if is_color_char kept)) in
        let cut = sym (ap (take 24) e) ∙ take-again 24 (keep_if is_color_char kept) ∙ e in
        ap (λ x. text_or (take 24 x) (codes "slate")) (keep_if-all is_color_char (d ∷ t) colored)
        ∙ ap (λ x. text_or x (codes "slate")) cut

status_of-name : (s : JobStatus) (d : Text) → status_of (text_or (status_name s) d) ≡ some s
status_of-name booked d = refl
status_of-name checking d = refl
status_of-name estimate_sent d = refl
status_of-name approved d = refl
status_of-name in_progress d = refl
status_of-name waiting_parts d = refl
status_of-name quality_check d = refl
status_of-name ready d = refl
status_of-name closed d = refl
status_of-name no_show d = refl

category_of-name : (c : Category) (d : Text) → category_of (text_or (category_name c) d) ≡ some c
category_of-name as_booked d = refl
category_of-name as_active d = refl
category_of-name as_ready d = refl
category_of-name as_closed d = refl
category_of-name as_cancelled d = refl

text_or-some : (s t : Text) → is_none s ≡ false → text_or s t ≡ s
text_or-some [] t h = cc
text_or-some (c ∷ s) t h = refl

fixed_texts-made :
    (key label description color : Text)
    → is_none (normalize_key key) ≡ false
    → (ltb (length (normalize_key key)) 80
        && ltb (length (take 80 (trim label))) 80
        && not (is_none (take 80 (trim label))))
      ≡ true
    → fixed_texts (normalize_key key) (take 80 (trim label)) (take 240 description) (color_of color)
      ≡ true
fixed_texts-made key label description color named settled =
    let key_same = same_text_self _ _ (key_text-again b'_' 80 key refl refl (ground arith)) in
    let label_same = same_text_self _ _ (label-again label (ground arith)) in
    let described = same_text_self _ _ (take-again 240 description) in
    let colored = same_text_self _ _ (color_of-again color) in
    let labelled : is_none (take 80 (trim label)) ≡ false = ground arith in
    rw (key_same, named, label_same, labelled, described, colored) refl

not-true : (b : Bool) → not b ≡ true → b ≡ false
not-true true h = cc
not-true false h = refl

all_six :
    (a b c d e f : Bool)
    → (a && b && c && d && e && f) ≡ true
    → (a ≡ true) × (b ≡ true) × (c ≡ true) × (d ≡ true) × (e ≡ true) × (f ≡ true)
all_six true true true true true f h = (refl, refl, refl, refl, refl, h)
all_six true true true true false f h = cc
all_six true true true false e f h = cc
all_six true true false d e f h = cc
all_six true false c d e f h = cc
all_six false b c d e f h = cc

fixed_texts-eq :
    (key label description color : Text)
    → fixed_texts key label description color ≡ true
    → (normalize_key key ≡ key)
      × (is_none key ≡ false)
      × (take 80 (trim label) ≡ label)
      × (is_none label ≡ false)
      × (take 240 description ≡ description)
      × (color_of color ≡ color)
fixed_texts-eq key label description color h =
    let (a, b, c, d, e, f) =
      all_six (same_text (normalize_key key) key) (not (is_none key))
        (same_text (take 80 (trim label)) label) (not (is_none label))
        (same_text (take 240 description) description) (same_text (color_of color) color) h in
    (
      (same_text_iff (normalize_key key) key).0 a,
      not-true (is_none key) b,
      (same_text_iff (take 80 (trim label)) label).0 c,
      not-true (is_none label) d,
      (same_text_iff (take 240 description) description).0 e,
      (same_text_iff (color_of color) color).0 f,
    )

-- What is true of a stage that has been made from an item
pub normalize_item-made :
    (index : ℕ) (seen : List Text) (item : RawStage) (stage : StageConfig)
    → normalize_item index seen item ≡ ok stage
    → (has_key stage.key seen ≡ false) × (is_settled stage ≡ true → is_fixed stage ≡ true)
unfolding normalize_item
normalize_item-made index seen item stage made =
    let (_, named, made1) = >>=-eq-ok _ _ made in
    let (_, new, made2) = >>=-eq-ok _ _ made1 in
    let (status, _, made3) = >>=-eq-ok _ _ made2 in
    let (category, _, made4) = >>=-eq-ok _ _ made3 in
    subst
      (λ (s : StageConfig).
        (has_key s.key seen ≡ false) × (is_settled s ≡ true → is_fixed s ≡ true))
      (ok_inj made4)
      (
        throw_if-eq-ok _ _ new,
        λ settled.
            fixed_texts-made (text_or item.key item.label) _ item.description item.color
              (throw_if-eq-ok _ _ named) settled,
      )

pub normalize_item-raw_of :
    (index : ℕ) (seen : List Text) (stage : StageConfig)
    → has_key stage.key seen ≡ false
    → is_fixed stage ≡ true
    → normalize_item index seen (raw_of stage) ≡ ok stage
unfolding normalize_item ◌>>=◌
normalize_item-raw_of index seen stage new fixed =
    let (key_same, named, label_same, labelled, described, colored) =
      fixed_texts-eq stage.key stage.label stage.description stage.color fixed in
    rw
      (
        text_or-some stage.key stage.label named,
        key_same,
        named,
        new,
        status_of-name stage.system_status (codes "in_progress"),
        category_of-name stage.system_category
            (category_name (category_for_status stage.system_status)),
        text_or-some stage.label (spaced stage.key) labelled,
        label_same,
        described,
        colored,
      )
      refl
