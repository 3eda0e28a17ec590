-- ===== src/Base/Trim.antt =====
-- Laws of the texts of Base/Text: a text that has been trimmed, or turned into a key, stays as it is
-- when this is done to it again.
use Prim.Native.Nat.{ℕ, zero, suc}
use mathlib.Core.Path.{◌≡◌, refl, sym, ap, ◌∙◌, subst}
use mathlib.Core.Bool.{Bool, true, false, not, ◌&&◌}
use mathlib.Core.Logic.{inl, inr}
use mathlib.Core.List.{List, [], ◌∷◌, ◌++◌, reverse, reverse-cons, reverse-append}
use native.Mathlib.Omega.{arith}
use superflow_api.Base.Tests.{ltb, if◌then◌else◌, Bool-cases}
use superflow_api.Base.Lists.{length, all, take}
use superflow_api.Base.Text.{Text, drop_while, trim_by}

abbrev pub is_none : Text → Bool
is_none [] = true
is_none (c ∷ s) = false

-- Without the characters at the end that meet the test
abbrev pub trim_end : (ℕ → Bool) → Text → Text
trim_end p [] = []
trim_end p (c ∷ s) = let rest = trim_end p s in if is_none rest && p c then [] else c ∷ rest

drop_while-snoc :
    (p : ℕ → Bool) (s : Text) (c : ℕ)
    → drop_while p (s ++ (c ∷ [])) ≡ (
        if is_none (drop_while p s)
        then (if p c then [] else c ∷ [])
        else drop_while p s ++ (c ∷ []))
drop_while-snoc p [] c = refl
drop_while-snoc p (d ∷ s) c = elim (Bool-cases (p d)) [
  | inl gone ↦ rw gone (drop_while-snoc p s c)
  | inr kept ↦ rw kept refl
]

is_none-snoc : (s : Text) (c : ℕ) → is_none (s ++ (c ∷ [])) ≡ false
is_none-snoc [] c = refl
is_none-snoc (d ∷ s) c = refl

reverse-snoc :
    (p : ℕ → Bool) (c : ℕ) (d rest : Text)
    → reverse d ≡ rest
    → reverse (if is_none d then (if p c then [] else c ∷ []) else d ++ (c ∷ []))
      ≡ (if is_none rest && p c then [] else c ∷ rest)
reverse-snoc p c [] rest same =
    subst (λ r. reverse (if p c then [] else c ∷ []) ≡ (if is_none r && p c then [] else c ∷ r))
      same (elim (Bool-cases (p c)) [ inl gone ↦ rw gone refl | inr kept ↦ rw kept refl ])
reverse-snoc p c (x ∷ d) rest same =
    let some_left : is_none rest ≡ false =
      ap is_none (sym same ∙ reverse-cons x d) ∙ is_none-snoc (reverse d) x in
    reverse-append (x ∷ d) (c ∷ []) ∙ ap (λ r. c ∷ r) same ∙ rw some_left refl

trim_end-reverse : (p : ℕ → Bool) (s : Text) → reverse (drop_while p (reverse s)) ≡ trim_end p s
trim_end-reverse p [] = refl
trim_end-reverse p (c ∷ s) =
    ap (λ r. reverse (drop_while p r)) (reverse-cons c s)
    ∙ ap reverse (drop_while-snoc p (reverse s) c)
    ∙ reverse-snoc p c (drop_while p (reverse s)) (trim_end p s) (trim_end-reverse p s)

pub trim_by-trim_end : (p : ℕ → Bool) (s : Text) → trim_by p s ≡ trim_end p (drop_while p s)
unfolding trim_by
trim_by-trim_end p s = trim_end-reverse p (drop_while p s)

pub trim_end-again : (p : ℕ → Bool) (s : Text) → trim_end p (trim_end p s) ≡ trim_end p s
trim_end-again p [] = refl
trim_end-again p (c ∷ s) = elim (Bool-cases (is_none (trim_end p s) && p c)) [
  | inl gone ↦ rw gone refl
  | inr kept ↦ rw kept (rw (trim_end-again p s, kept) refl)
]

drop_while-again :
    (p : ℕ → Bool) (s : Text)
    → drop_while p (trim_end p (drop_while p s)) ≡ trim_end p (drop_while p s)
drop_while-again p [] = refl
drop_while-again p (c ∷ s) = elim (Bool-cases (p c)) [
  | inl gone ↦ rw gone (drop_while-again p s)
  | inr kept ↦ rw kept (ground (arith, kept))
]

pub trim_by-again : (p : ℕ → Bool) (s : Text) → trim_by p (trim_by p s) ≡ trim_by p s
trim_by-again p s =
    ap (trim_by p) (trim_by-trim_end p s)
    ∙ trim_by-trim_end p (trim_end p (drop_while p s))
    ∙ ap (trim_end p) (drop_while-again p s)
    ∙ trim_end-again p (drop_while p s)
    ∙ sym (trim_by-trim_end p s)

-- A text with no character that meets the test
drop_while-free : (p : ℕ → Bool) (s : Text) → all (λ c. not (p c)) s ≡ true → drop_while p s ≡ s
drop_while-free p [] free = refl
drop_while-free p (c ∷ s) free = ground arith

trim_end-free : (p : ℕ → Bool) (s : Text) → all (λ c. not (p c)) s ≡ true → trim_end p s ≡ s
trim_end-free p [] free = refl
trim_end-free p (c ∷ s) free = ground (arith, trim_end-free p s)

pub trim_by-free : (p : ℕ → Bool) (s : Text) → all (λ c. not (p c)) s ≡ true → trim_by p s ≡ s
trim_by-free p s free =
    trim_by-trim_end p s ∙ ap (trim_end p) (drop_while-free p s free) ∙ trim_end-free p s free

pub all-trim_end : (q p : ℕ → Bool) (s : Text) → all q s ≡ true → all q (trim_end p s) ≡ true
all-trim_end q p [] h = refl
all-trim_end q p (c ∷ s) h = ground (arith, all-trim_end q p s)

-- What has not been cut off is the whole.
pub take-short : (n : ℕ) (s : Text) → ltb (length (take n s)) n ≡ true → take n s ≡ s
take-short zero s h = cc
take-short (suc n) [] h = refl
take-short (suc n) (c ∷ s) h = ap (λ t. c ∷ t) (take-short n s (ground (arith, h)))

pub take-again : {A : Type 0} → (n : ℕ) (s : List A) → take n (take n s) ≡ take n s
take-again zero s = refl
take-again (suc n) [] = refl
take-again (suc n) (c ∷ s) = ap (λ t. c ∷ t) (take-again n s)
