-- ===== src/Auth/Slug.antt =====
-- The address of a new workshop (`slugify` and `uniqueWorkshopSlug` of src/auth/auth.service.ts). The
-- loop runs on fuel: one round more than there are addresses is enough.
use superflow_api.Base.{
  ℕ, zero, suc, ◌+◌, ◌-◌, ◌*◌, ◌/◌, ◌≤◌, ◌<◌, ◌≡◌, ◌≢◌, refl, sym, ap, ◌∙◌, subst, Bool, true,
  false, not, Option, none, some, List, [], ◌∷◌, ◌++◌, arith, ◌==◌, length, keep_if, any,
  if◌then◌else◌, Bool-cases, inl, inr,
}
use Prim.Native.Nat.{◌%◌}
use superflow_api.Base.Text.{Text, codes, same_text, same_text_iff, key_text}

-- `${n}`: the decimal digits of a number, the last one first; a number has no more digits than its
-- value.
unfoldable pub digits : ℕ → ℕ → Text → Text
digits zero n out = out
digits (suc f) n out =
    let rest = digits f (n / 10) ((48 + n % 10) ∷ out) in if n == 0 then out else rest

unfoldable pub decimal : ℕ → Text
unfolding digits
decimal n = if n == 0 then 48 ∷ [] else digits n n []

abbrev or_workshop : Text → Text
or_workshop [] = codes "workshop"
or_workshop (c ∷ s) = c ∷ s

-- `slugify`
unfoldable pub slugify : Text → Text
slugify name = or_workshop (key_text 45 50 name)

-- The address that is tried in round `i`: the base, and then `${base}-${i}`
unfoldable pub slug_of : Text → ℕ → Text
slug_of base i = if i == 1 then base else base ++ (45 ∷ decimal i)

abbrev pub is_claimed : Text → List Text → Bool
is_claimed slug = any (λ t. same_text slug t)

unfoldable pub find_slug : ℕ → Text → ℕ → List Text → Option Text
find_slug zero base i taken = none
find_slug (suc f) base i taken =
    let rest = find_slug f base (i + 1) taken in
    if is_claimed (slug_of base i) taken then rest else some (slug_of base i)

-- `uniqueWorkshopSlug`, given the addresses of the workshops
unfoldable pub unique_workshop_slug : Text → List Text → Option Text
unique_workshop_slug name taken = find_slug (length taken + 1) (slugify name) 1 taken

value : Text → ℕ → ℕ
value [] n = n
value (c ∷ s) n = value s (n * 10 + (c - 48))

value-digits : (f n : ℕ) (out : Text) → n ≤ f → value (digits f n out) 0 ≡ value out n
unfolding digits value
value-digits zero n out h = ground arith
value-digits (suc f) n out h = elim (Bool-cases (n == 0)) [
  | inl none' ↦ rw none' (ap (value out) (ground arith))
  | inr some' ↦
      rw some' (
        value-digits f (n / 10) ((48 + n % 10) ∷ out) (ground arith) ∙ ap (value out) (omega arith))
]

value-decimal : (n : ℕ) → value (decimal n) 0 ≡ n
unfolding decimal value
value-decimal n = ground (arith, value-digits n n [])

tail_inj : (base s t : Text) → base ++ (45 ∷ s) ≡ base ++ (45 ∷ t) → s ≡ t
tail_inj [] s t h = cc h
tail_inj (c ∷ base) s t h = tail_inj base s t (cc h)

longer : (base s : Text) → base ≢ base ++ (45 ∷ s)
longer [] s h = cc h
longer (c ∷ base) s h = longer base s (cc h)

slug_of_inj : (base : Text) (i j : ℕ) → slug_of base i ≡ slug_of base j → i ≡ j
unfolding slug_of
slug_of_inj base i j h = elim (Bool-cases (i == 1)) [
  | inl first ↦ elim (Bool-cases (j == 1)) [
    | inl first' ↦ ground (arith, first, first')
    | inr later' ↦ absurd (longer base (decimal j) (sym (rw first refl) ∙ h ∙ rw later' refl))
  ]
  | inr later ↦ elim (Bool-cases (j == 1)) [
    | inl first' ↦ absurd (longer base (decimal i) (sym (rw first' refl) ∙ sym h ∙ rw later refl))
    | inr later' ↦
        let same =
          tail_inj base (decimal i) (decimal j) (sym (rw later refl) ∙ h ∙ rw later' refl) in
        sym (value-decimal i) ∙ ap (λ s. value s 0) same ∙ value-decimal j
  ]
]

-- The rounds that are left try other addresses than this one.
abbrev without : Text → List Text → List Text
without slug = keep_if (λ t. not (same_text slug t))

length-without : (slug : Text) (taken : List Text) → length (without slug taken) ≤ length taken
length-without slug [] = omega arith
length-without slug (t ∷ taken) = ground (arith, length-without slug taken)

length-without_taken :
    (slug : Text) (taken : List Text)
    → is_claimed slug taken ≡ true
    → length (without slug taken) < length taken
length-without_taken slug [] h = cc
length-without_taken slug (t ∷ taken) h =
    ground (arith, length-without slug taken, length-without_taken slug taken)

taken-without :
    (slug other : Text) (taken : List Text)
    → other ≢ slug
    → is_claimed other (without slug taken) ≡ is_claimed other taken
taken-without slug other [] apart = refl
taken-without slug other (t ∷ taken) apart = elim (Bool-cases (same_text slug t)) [
  | inr kept ↦ rw kept (ground (arith, taken-without slug other taken apart))
  | inl dropped ↦
      let at = (same_text_iff slug t).0 dropped in
      elim (Bool-cases (same_text other t)) [
        | inl same ↦ absurd (apart ((same_text_iff other t).0 same ∙ sym at))
        | inr differs ↦ rw dropped (ground (arith, differs, taken-without slug other taken apart))
      ]
]

find_slug-same :
    (f : ℕ) (base : Text) (i : ℕ) (taken taken' : List Text)
    → ((j : ℕ) → i ≤ j → is_claimed (slug_of base j) taken ≡ is_claimed (slug_of base j) taken')
    → find_slug f base i taken ≡ find_slug f base i taken'
unfolding find_slug
find_slug-same zero base i taken taken' h = refl
find_slug-same (suc f) base i taken taken' h =
    let rest = find_slug-same f base (i + 1) taken taken' λ j le. h j (omega arith) in
    rw (h i (omega arith)) (rw rest refl)

find_slug-total :
    (f : ℕ) (base : Text) (i : ℕ) (taken : List Text)
    → length taken < f
    → (slug : Text) × (find_slug f base i taken ≡ some slug)
unfolding find_slug
find_slug-total zero base i taken h = absurd (omega arith)
find_slug-total (suc f) base i taken h = elim (Bool-cases (is_claimed (slug_of base i) taken)) [
  | inr free ↦ (slug_of base i, rw free refl)
  | inl there ↦
      let slug = slug_of base i in
      let fewer = length-without_taken slug taken there in
      let (found, at) = find_slug-total f base (i + 1) (without slug taken) (omega arith) in
      let same = find_slug-same f base (i + 1) (without slug taken) taken λ j le.
        taken-without slug (slug_of base j) taken
          λ e. absurd (omega (arith, le, slug_of_inj base j i e)) in
      (found, rw there (sym same ∙ at))
]

find_slug-free :
    (f : ℕ) (base : Text) (i : ℕ) (taken : List Text) {slug : Text}
    → find_slug f base i taken ≡ some slug
    → is_claimed slug taken ≡ false
unfolding find_slug
find_slug-free zero base i taken h = cc
find_slug-free (suc f) base i taken {slug} h =
    elim (Bool-cases (is_claimed (slug_of base i) taken)) [
      | inl there ↦ find_slug-free f base (i + 1) taken (rw there at h)
      | inr free ↦
          let same : slug_of base i ≡ slug = ground (arith, free, h) in
          subst (λ s. is_claimed s taken ≡ false) same free
    ]

-- The search for the address of a new workshop ends, whatever its name and whichever addresses
-- are taken, after at most one round more than there are addresses; and it gives one that is not
-- taken.
pub unique_workshop_slug-total :
    (name : Text) (taken : List Text)
    → (slug : Text) × (unique_workshop_slug name taken ≡ some slug)
      × (is_claimed slug taken ≡ false)
unfolding unique_workshop_slug
unique_workshop_slug-total name taken =
    let (slug, found) = find_slug-total (length taken + 1) (slugify name) 1 taken (omega arith) in
    (slug, found, find_slug-free (length taken + 1) (slugify name) 1 taken found)
