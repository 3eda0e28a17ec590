-- ===== src/Base/Keys.antt =====
-- A key of Base/Text that has not been cut off is its own key.
use Prim.Native.Nat.{ℕ}
use mathlib.Core.Path.{◌≡◌, refl, sym, ap, ◌∙◌, subst}
use mathlib.Core.Bool.{Bool, true, false, not, ◌&&◌}
use mathlib.Core.Logic.{inl, inr}
use mathlib.Core.List.{[], ◌∷◌}
use native.Mathlib.Omega.{arith}
use superflow_api.Base.Tests.{◌==◌, ==_iff, ltb, if◌then◌else◌, Bool-cases}
use superflow_api.Base.Lists.{length, all, take}
use superflow_api.Base.Text.{
  Text, is_space, lower, is_alnum, drop_while, trim_by, trim, to_lower, marked, key_text,
}
use superflow_api.Base.Trim.{
  is_none, trim_end, trim_by-trim_end, trim_by-free, trim_end-again, all-trim_end, take-short,
}

abbrev pub is_fine : ℕ → Bool
is_fine c = not (is_space c) && lower c == c

to_lower-fine : (s : Text) → all is_fine s ≡ true → to_lower s ≡ s
to_lower-fine [] h = refl
to_lower-fine (c ∷ s) h =
    let same : lower c ≡ c = (==_iff (lower c) c).0 (ground (arith, h)) in
    rw same (ap (λ t. c ∷ t) (to_lower-fine s (ground (arith, h))))

spaceless : (s : Text) → all is_fine s ≡ true → all (λ c. not (is_space c)) s ≡ true
spaceless [] h = refl
spaceless (c ∷ s) h = ground (arith, spaceless s)

alnum-fine : (c : ℕ) → is_alnum c ≡ true → is_fine c ≡ true
alnum-fine c h = ground arith

marked-fine : (m : ℕ) (b : Bool) (s : Text) → is_fine m ≡ true → all is_fine (marked m b s) ≡ true
marked-fine m b [] fine = by_flag b
  where
    by_flag : (b : Bool) → all is_fine (marked m b []) ≡ true
    by_flag true = refl
    by_flag false = refl
marked-fine m true (c ∷ s) fine = elim (Bool-cases (is_alnum c)) [
  | inl kept ↦ rw (kept) (rw (alnum-fine c kept) (marked-fine m false s fine))
  | inr gone ↦ rw gone (marked-fine m true s fine)
]
marked-fine m false (c ∷ s) fine = elim (Bool-cases (is_alnum c)) [
  | inl kept ↦ rw (kept) (rw (alnum-fine c kept) (marked-fine m false s fine))
  | inr gone ↦ rw gone (rw fine (marked-fine m true s fine))
]

module _ (m : ℕ) (plain : is_alnum m ≡ false) where
  abbrev is_mark : ℕ → Bool
  is_mark c = c == m

  alnum-mark : (c : ℕ) → is_alnum c ≡ true → is_mark c ≡ false
  alnum-mark c h = elim (Bool-cases (c == m)) [
    | inl same ↦ cc (sym h ∙ ap is_alnum ((==_iff c m).0 same) ∙ plain)
    | inr apart ↦ apart
  ]

  drop_while-marked : (s : Text) → drop_while is_mark (marked m true s) ≡ marked m true s
  drop_while-marked [] = refl
  drop_while-marked (c ∷ s) = elim (Bool-cases (is_alnum c)) [
    | inl kept ↦ rw kept (rw (alnum-mark c kept) refl)
    | inr gone ↦ rw gone (drop_while-marked s)
  ]

  drop_while-leading : (s : Text) → drop_while is_mark (marked m false s) ≡ marked m true s
  drop_while-leading [] = refl
  drop_while-leading (c ∷ s) = elim (Bool-cases (is_alnum c)) [
    | inl kept ↦ rw kept (rw (alnum-mark c kept) refl)
    | inr gone ↦
        let self : is_mark m ≡ true = ground arith in rw gone (rw self (drop_while-marked s))
  ]

  abbrev tidy : Bool → Text → Text
  tidy b s = trim_end is_mark (marked m b s)

  marked-alnum :
      (b : Bool) (c : ℕ) (t : Text) → is_alnum c ≡ true → marked m b (c ∷ t) ≡ c ∷ marked m false t
  marked-alnum true c t h = rw h refl
  marked-alnum false c t h = rw h refl

  marked-plain :
      (b : Bool) (c : ℕ) (t : Text)
      → is_alnum c ≡ false
      → marked m b (c ∷ t) ≡ (if b then marked m true t else m ∷ marked m true t)
  marked-plain true c t h = rw h refl
  marked-plain false c t h = rw h refl

  tidy-alnum : (b : Bool) (c : ℕ) (s : Text) → is_alnum c ≡ true → tidy b (c ∷ s) ≡ c ∷ tidy false s
  tidy-alnum b c s h =
      let kept : (is_none (tidy false s) && is_mark c) ≡ false =
        rw (alnum-mark c h) (ground arith) in
      ap (trim_end is_mark) (marked-alnum b c s h) ∙ rw kept refl

  marked-alnum_tidy :
      (b1 b2 : Bool) (c : ℕ) (s : Text)
      → is_alnum c ≡ true
      → marked m false (tidy false s) ≡ tidy false s
      → marked m b2 (tidy b1 (c ∷ s)) ≡ tidy b1 (c ∷ s)
  marked-alnum_tidy b1 b2 c s h again =
      ap (marked m b2) (tidy-alnum b1 c s h)
      ∙ marked-alnum b2 c (tidy false s) h
      ∙ ap (λ t. c ∷ t) again
      ∙ sym (tidy-alnum b1 c s h)

  marked-led :
      (s : Text)
      → ((b : Bool) → marked m b (tidy true s) ≡ tidy true s)
      → marked m false (trim_end is_mark (m ∷ marked m true s))
        ≡ trim_end is_mark (m ∷ marked m true s)
  marked-led s again = elim (Bool-cases (is_none (tidy true s) && is_mark m)) [
    | inl empty ↦ rw empty refl
    | inr left ↦ rw left (marked-plain false m (tidy true s) plain ∙ ap (λ t. m ∷ t) (again true))
  ]

  -- Marks are already where they belong.
  marked-tidy :
      (s : Text)
      → ((b : Bool) → marked m b (tidy true s) ≡ tidy true s)
        × (marked m false (tidy false s) ≡ tidy false s)
  marked-tidy [] = ((λ b. by_flag b), refl)
    where
      by_flag : (b : Bool) → marked m b [] ≡ []
      by_flag true = refl
      by_flag false = refl
  marked-tidy (c ∷ s) =
      let (flagged, unflagged) = marked-tidy s in
      elim (Bool-cases (is_alnum c)) [
        | inl kept ↦ (
          (λ b. marked-alnum_tidy true b c s kept unflagged),
          marked-alnum_tidy false false c s kept unflagged,
        )
        | inr gone ↦ ((λ b. rw gone (flagged b)), rw gone (marked-led s flagged))
      ]

  -- The key of a text, before it is cut off
  pub full_key-eq : (s : Text) → trim_by is_mark (marked m false s) ≡ tidy true s
  full_key-eq s =
      trim_by-trim_end is_mark (marked m false s) ∙ ap (trim_end is_mark) (drop_while-leading s)

  pub full_key-fine : (s : Text) → is_fine m ≡ true → all is_fine (tidy true s) ≡ true
  full_key-fine s fine = all-trim_end is_fine is_mark (marked m true s) (marked-fine m true s fine)

  pub full_key-again : (s : Text) → trim_by is_mark (marked m false (tidy true s)) ≡ tidy true s
  full_key-again s =
      full_key-eq (tidy true s)
      ∙ ap (trim_end is_mark) ((marked-tidy s).0 true)
      ∙ trim_end-again is_mark (marked m true s)

-- A key that is shorter than the limit is its own key.
pub key_text-again :
    (m n : ℕ) (s : Text)
    → is_alnum m ≡ false
    → is_fine m ≡ true
    → ltb (length (key_text m n s)) n ≡ true
    → key_text m n (key_text m n s) ≡ key_text m n s
unfolding key_text trim
key_text-again m n s plain fine short =
    let whole = to_lower (trim s) in
    let full = trim_by (λ c. c == m) (marked m false whole) in
    let same = full_key-eq m plain whole in
    let fit = subst (λ t. all is_fine t ≡ true) (sym same) (full_key-fine m plain whole fine) in
    let settled : to_lower (trim full) ≡ full =
      ap to_lower (trim_by-free is_space full (spaceless full fit)) ∙ to_lower-fine full fit in
    let again : trim_by (λ c. c == m) (marked m false full) ≡ full =
      subst (λ t. trim_by (λ c. c == m) (marked m false t) ≡ t) (sym same)
        (full_key-again m plain whole) in
    ap (key_text m n) (take-short n full short)
    ∙ ap (λ t. take n (trim_by (λ c. c == m) (marked m false t))) settled
    ∙ ap (take n) again
