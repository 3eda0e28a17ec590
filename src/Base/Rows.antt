-- ===== src/Base/Rows.antt =====
-- Laws of the queries and writes of a table: what `find_first`, `update_where` and `keep_if` keep.
use mathlib.Core.Path.{◌≡◌, refl, subst, ◌∙◌}
use mathlib.Core.Logic.{inl, inr}
use mathlib.Core.Bool.{Bool, true}
use mathlib.Core.Option.{some}
use mathlib.Core.List.{List, [], ◌∷◌}
use native.Mathlib.Omega.{arith}
use superflow_api.Base.Tests.{if◌then◌else◌, Bool-cases}
use superflow_api.Base.Lists.{find_first, keep_if, update_where, all}

module _ {ℓ} {A : Type ℓ} where
  pub all-find :
      (p q : A → Bool) (l : List A) (a : A)
      → all q l ≡ true
      → find_first p l ≡ some a
      → (p a ≡ true) × (q a ≡ true)
  all-find p q [] a h found = cc
  all-find p q (x ∷ l) a h found = elim (Bool-cases (p x)) [
    | inl here ↦
        let same : x ≡ a = ground (arith, here, found) in
        (subst (λ y. p y ≡ true) same here, subst (λ y. q y ≡ true) same (ground arith))
    | inr there ↦ all-find p q l a (ground arith) (ground (arith, there, found))
  ]

  pub find-holds : (p : A → Bool) (l : List A) (a : A) → find_first p l ≡ some a → p a ≡ true
  find-holds p [] a found = cc
  find-holds p (x ∷ l) a found = elim (Bool-cases (p x)) [
    | inl here ↦ let same : x ≡ a = ground (arith, here, found) in subst (λ y. p y ≡ true) same here
    | inr there ↦ find-holds p l a (ground (arith, there, found))
  ]

  pub all-update :
      (q p : A → Bool) (f : A → A) (l : List A)
      → ((a : A) → q a ≡ true → q (f a) ≡ true)
      → all q l ≡ true
      → all q (update_where p f l) ≡ true
  all-update q p f [] keeps h = refl
  all-update q p f (a ∷ l) keeps h = ground (arith, keeps a, all-update q p f l keeps)

  pub all-keep : (q p : A → Bool) (l : List A) → all q l ≡ true → all q (keep_if p l) ≡ true
  all-keep q p [] h = refl
  all-keep q p (a ∷ l) h = ground (arith, all-keep q p l)

  -- A write that the search does not notice is found at the row that is found.
  pub find-update :
      (p q : A → Bool) (f : A → A) (l : List A) (a : A)
      → ((x : A) → p (f x) ≡ p x)
      → find_first p l ≡ some a
      → find_first p (update_where q f l) ≡ some (if q a then f a else a)
  find-update p q f [] a same found = cc
  find-update p q f (x ∷ l) a same found = elim (Bool-cases (p x)) [
    | inl here ↦ elim (Bool-cases (q x)) [
      | inl written ↦ rw written (ground (arith, found, here, written, same x))
      | inr left ↦ rw left (ground (arith, found, here, left))
    ]
    | inr there ↦ elim (Bool-cases (q x)) [
      | inl written ↦ rw written (ground (arith, found, there, same x, find-update p q f l a same))
      | inr left ↦ rw left (ground (arith, found, there, find-update p q f l a same))
    ]
  ]

  pub find-update_own :
      (p q : A → Bool) (f : A → A) (l : List A) (a : A)
      → ((x : A) → p (f x) ≡ p x)
      → find_first p l ≡ some a
      → q a ≡ true
      → find_first p (update_where q f l) ≡ some (f a)
  find-update_own p q f l a same found own = find-update p q f l a same found ∙ rw own refl
