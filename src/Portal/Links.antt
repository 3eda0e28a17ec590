-- ===== src/Portal/Links.antt =====
-- What the changes to links and decisions leave as it was (src/authorisation/authorisation.service.ts).
use superflow_api.Base.{
  ℕ, ◌≤◌, ◌≡◌, refl, sym, ap, ◌∙◌, subst, Bool, false, not, ◌&&◌, Option, none, some, List, [], ◌∷◌,
  ◌++◌, arith, ◌==◌, find_first, keep_if, update_where, any, if◌then◌else◌, Option-cases,
  Bool-cases, inl, inr,
}
use mathlib.Core.Option.{map}
use superflow_api.Portal.Types.{Token, Decision, Portal}
use superflow_api.Portal.Service.{find_hash, find_token, is_of_job, as_used}
use superflow_api.Portal.Decided.{times_decided, IsKeyed}

abbrev first_found : Option Token → Option Token → Option Token
first_found none b = b
first_found (some a) _ = some a

-- Writing `used_at`, or adding a token with a new id, changes no token's job.
find-as_used :
    (p : Token → Bool) (id now : ℕ) (tokens : List Token)
    → ((t : Token) → p (as_used now t) ≡ p t)
    → find_first p (update_where (λ x. x.id == id) (as_used now) tokens)
      ≡ map (λ x. if x.id == id then as_used now x else x) (find_first p tokens)
find-as_used p id now [] same = refl
find-as_used p id now (t ∷ tokens) same = ground (arith, same t, find-as_used p id now tokens same)

is_of_job-as_used :
    (job : Option ℕ) (id now : ℕ) (o : Option Token)
    → is_of_job job (map (λ x. if x.id == id then as_used now x else x) o) ≡ is_of_job job o
is_of_job-as_used job id now none = refl
is_of_job-as_used job id now (some t) = elim (Bool-cases (t.id == id)) [
  | inl here ↦ rw here refl
  | inr there ↦ rw there refl
]

pub times_decided-as_used :
    (id now job line : ℕ) (tokens : List Token) (ds : List Decision)
    → times_decided (update_where (λ x. x.id == id) (as_used now) tokens) job line ds
      ≡ times_decided tokens job line ds
times_decided-as_used id now job line tokens [] = refl
times_decided-as_used id now job line tokens (d ∷ ds) =
    let found = find-as_used (λ x. x.id == d.token_id) id now tokens (λ _. refl) in
    let same = is_of_job-as_used (some job) id now (find_token d.token_id tokens) in
    let rest = times_decided-as_used id now job line tokens ds in rw found (rw same (rw rest refl))

abbrev written : ℕ → ℕ → Token → Token
written id now x = if x.id == id then as_used now x else x

written-id : (id now : ℕ) (t : Token) → (written id now t).id ≡ t.id
written-id id now t = elim (Bool-cases (t.id == id)) [
  | inl here ↦ rw here refl
  | inr there ↦ rw there refl
]

pub as_used-IsKeyed :
    (id now : ℕ) (tokens : List Token)
    → IsKeyed tokens
    → IsKeyed (update_where (λ x. x.id == id) (as_used now) tokens)
as_used-IsKeyed id now tokens keyed hash t h =
    let hashed = find-as_used (λ x. x.token_hash == hash) id now tokens (λ _. refl) in
    let numbered = find-as_used (λ x. x.id == t.id) id now tokens (λ _. refl) in
    elim (Option-cases (find_hash hash tokens)) [
      | inl none' ↦ cc (sym h ∙ hashed ∙ ap (map (written id now)) none')
      | inr (u, at) ↦
          let wrote = some_inj (sym h ∙ hashed ∙ ap (map (written id now)) at) in
          let same = ap (λ x. x.id) wrote ∙ written-id id now u in
          let found = subst (λ n. find_token n tokens ≡ some u) (sym same) (keyed hash u at) in
          numbered ∙ ap (map (written id now)) found ∙ ap some (sym wrote)
    ]
  where
    some_inj : {a b : Token} → ◌≡◌ {A = Option Token} (some a) (some b) → a ≡ b
    some_inj h = cc h

find-append :
    (p : Token → Bool) (tokens : List Token) (n : Token)
    → find_first p (tokens ++ (n ∷ []))
      ≡ first_found (find_first p tokens) (if p n then some n else none)
find-append p [] n = refl
find-append p (t ∷ tokens) n = ground (arith, find-append p tokens n)

any-find :
    (p : Token → Bool) (tokens : List Token) → any p tokens ≡ false → find_first p tokens ≡ none
any-find p [] h = refl
any-find p (t ∷ tokens) h = ground (arith, any-find p tokens)

-- Is the id of a new link one that no link and no decision has?
abbrev pub is_new_id : ℕ → Portal → Bool
is_new_id id db =
    not (any (λ t. t.id == id) db.tokens) && not (any (λ d. d.token_id == id) db.decisions)

pub append-IsKeyed :
    (tokens : List Token) (n : Token)
    → any (λ t. t.id == n.id) tokens ≡ false
    → IsKeyed tokens
    → IsKeyed (tokens ++ (n ∷ []))
append-IsKeyed tokens n anew keyed hash t h =
    let hashed = find-append (λ x. x.token_hash == hash) tokens n in
    let numbered = find-append (λ x. x.id == t.id) tokens n in
    elim (Option-cases (find_hash hash tokens)) [
      | inr (u, at) ↦
          let same : u ≡ t = ground (arith, sym h ∙ hashed, at) in
          let found = subst (λ x. find_token x.id tokens ≡ some x) same (keyed hash u at) in
          ground (arith, numbered, found)
      | inl none' ↦
          let same : n ≡ t = ground (arith, sym h ∙ hashed, none') in
          let missing = subst (λ x. find_token x.id tokens ≡ none) same (any-find _ tokens anew) in
          ground (arith, numbered, missing, same)
    ]

pub times_decided-append :
    (job line : ℕ) (tokens : List Token) (n : Token) (ds : List Decision)
    → any (λ d. d.token_id == n.id) ds ≡ false
    → times_decided (tokens ++ (n ∷ [])) job line ds ≡ times_decided tokens job line ds
times_decided-append job line tokens n [] anew = refl
times_decided-append job line tokens n (d ∷ ds) anew =
    let found = find-append (λ x. x.id == d.token_id) tokens n in
    let other : (n.id == d.token_id) ≡ false = ground arith in
    let same : is_of_job (some job) (find_token d.token_id (tokens ++ (n ∷ [])))
        ≡ is_of_job (some job) (find_token d.token_id tokens) =
      ground (arith, found, other) in
    let rest = times_decided-append job line tokens n ds (ground arith) in rw same (rw rest refl)

pub times_decided-keep :
    (p : Decision → Bool) (tokens : List Token) (job line : ℕ) (ds : List Decision)
    → times_decided tokens job line (keep_if p ds) ≤ times_decided tokens job line ds
times_decided-keep p tokens job line [] = ground arith
times_decided-keep p tokens job line (d ∷ ds) =
    ground (arith, times_decided-keep p tokens job line ds)
