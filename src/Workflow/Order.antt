-- ===== src/Workflow/Order.antt =====
-- The order of the stages that `normalizeStages` returns (src/admin/workflow.service.ts).
use superflow_api.Base.{
  ◌≡◌, refl, ap, ◌∙◌, Bool, true, false, not, ◌&&◌, ◌||◌, List, [], ◌∷◌, arith, any, all,
  Bool-cases, inl, inr,
}
use superflow_api.Base.Int.{ℤ, leb_ℤ}
use superflow_api.Base.Text.{Text, same_text}
use superflow_api.Workflow.Types.{StageConfig}
use superflow_api.Workflow.Service.{insert_stage, sort_stages}

-- No stage comes after one of a greater place.
abbrev pub starts : ℤ → List StageConfig → Bool
starts n [] = true
starts n (s ∷ stages) = leb_ℤ n s.sort_order

abbrev pub in_order : List StageConfig → Bool
in_order [] = true
in_order (s ∷ stages) = starts s.sort_order stages && in_order stages

starts-insert_stage :
    (n : ℤ) (s : StageConfig) (stages : List StageConfig)
    → leb_ℤ n s.sort_order ≡ true
    → starts n stages ≡ true
    → starts n (insert_stage s stages) ≡ true
starts-insert_stage n s [] first rest = first
starts-insert_stage n s (t ∷ stages) first rest =
    elim (Bool-cases (leb_ℤ s.sort_order t.sort_order)) [
      | inl before ↦ rw before first
      | inr later ↦ rw later rest
    ]

leb_ℤ-total : (a b : ℤ) → leb_ℤ a b ≡ false → leb_ℤ b a ≡ true
leb_ℤ-total a b h = ground (arith, h)

in_order-insert_stage :
    (s : StageConfig) (stages : List StageConfig)
    → in_order stages ≡ true
    → in_order (insert_stage s stages) ≡ true
in_order-insert_stage s [] h = refl
in_order-insert_stage s (t ∷ stages) h = elim (Bool-cases (leb_ℤ s.sort_order t.sort_order)) [
  | inl before ↦ rw before (rw before h)
  | inr later ↦
      let first =
        starts-insert_stage t.sort_order s stages (leb_ℤ-total s.sort_order t.sort_order later)
          (ground arith) in
      let rest = in_order-insert_stage s stages (ground arith) in rw later (rw (first, rest) refl)
]

pub in_order-sort_stages : (stages : List StageConfig) → in_order (sort_stages stages) ≡ true
in_order-sort_stages [] = refl
in_order-sort_stages (s ∷ stages) =
    in_order-insert_stage s (sort_stages stages) (in_order-sort_stages stages)

-- Stages in order are left as they are.
insert_stage-first :
    (s : StageConfig) (stages : List StageConfig)
    → starts s.sort_order stages ≡ true
    → insert_stage s stages ≡ s ∷ stages
insert_stage-first s [] h = refl
insert_stage-first s (t ∷ stages) h = rw h refl

pub sort_stages-again :
    (stages : List StageConfig) → in_order stages ≡ true → sort_stages stages ≡ stages
sort_stages-again [] h = refl
sort_stages-again (s ∷ stages) h =
    ap (insert_stage s) (sort_stages-again stages (ground arith))
    ∙ insert_stage-first s stages (ground arith)

any-insert_stage :
    (p : StageConfig → Bool) (s : StageConfig) (stages : List StageConfig)
    → any p (insert_stage s stages) ≡ (p s || any p stages)
any-insert_stage p s [] = refl
any-insert_stage p s (t ∷ stages) = elim (Bool-cases (leb_ℤ s.sort_order t.sort_order)) [
  | inl before ↦ rw before refl
  | inr later ↦ rw later (ground (arith, any-insert_stage p s stages))
]

all-insert_stage :
    (p : StageConfig → Bool) (s : StageConfig) (stages : List StageConfig)
    → all p (insert_stage s stages) ≡ (p s && all p stages)
all-insert_stage p s [] = refl
all-insert_stage p s (t ∷ stages) = elim (Bool-cases (leb_ℤ s.sort_order t.sort_order)) [
  | inl before ↦ rw before refl
  | inr later ↦ rw later (ground (arith, all-insert_stage p s stages))
]

pub all-sort_stages :
    (p : StageConfig → Bool) (stages : List StageConfig) → all p (sort_stages stages) ≡ all p stages
all-sort_stages p [] = refl
all-sort_stages p (s ∷ stages) =
    all-insert_stage p s (sort_stages stages) ∙ ap (λ b. p s && b) (all-sort_stages p stages)

any-sort_stages :
    (p : StageConfig → Bool) (stages : List StageConfig) → any p (sort_stages stages) ≡ any p stages
any-sort_stages p [] = refl
any-sort_stages p (s ∷ stages) =
    any-insert_stage p s (sort_stages stages) ∙ ap (λ b. p s || b) (any-sort_stages p stages)

-- No two stages have one key.
abbrev pub has_stage : Text → List StageConfig → Bool
has_stage key = any (λ s. same_text key s.key)

abbrev pub all_apart : List StageConfig → Bool
all_apart [] = true
all_apart (s ∷ stages) = not (has_stage s.key stages) && all_apart stages

pub same_text-swap : (s t : Text) → same_text s t ≡ same_text t s
same_text-swap [] [] = refl
same_text-swap [] (b ∷ t) = refl
same_text-swap (a ∷ s) [] = refl
same_text-swap (a ∷ s) (b ∷ t) = ground (arith, same_text-swap s t)

all_apart-insert_stage :
    (s : StageConfig) (stages : List StageConfig)
    → all_apart (insert_stage s stages) ≡ (not (has_stage s.key stages) && all_apart stages)
all_apart-insert_stage s [] = refl
all_apart-insert_stage s (t ∷ stages) = elim (Bool-cases (leb_ℤ s.sort_order t.sort_order)) [
  | inl before ↦ rw before refl
  | inr later ↦ rw later (
      ground (
        arith,
        all_apart-insert_stage s stages,
        any-insert_stage (λ x. same_text t.key x.key) s stages,
        same_text-swap s.key t.key,
      ))
]

pub all_apart-sort_stages :
    (stages : List StageConfig) → all_apart (sort_stages stages) ≡ all_apart stages
all_apart-sort_stages [] = refl
all_apart-sort_stages (s ∷ stages) =
    all_apart-insert_stage s (sort_stages stages)
    ∙ rw (any-sort_stages (λ x. same_text s.key x.key) stages, all_apart-sort_stages stages) refl
