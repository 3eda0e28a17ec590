-- ===== src/Base/Text.antt =====
-- Texts as lists of character codes, and what the services do to names and keys. The characters are
-- those of ASCII: a space is one of its blanks, and only its letters have a lower case.
use Prim.Native.Nat.{ℕ, ◌+◌}
use Prim.Native.Char.{code}
use Prim.Native.String.{String}
use mathlib.Core.Path.{◌≡◌, refl}
use mathlib.Core.Logic.{◌↔◌}
use mathlib.Core.Bool.{Bool, true, false, ◌&&◌, ◌||◌}
use mathlib.Core.List.{List, [], ◌∷◌, map, reverse}
use native.Mathlib.Omega.{arith}
use superflow_api.Base.Tests.{◌==◌, leb, if◌then◌else◌}
use superflow_api.Base.Lists.{take}

abbrev pub Text : Type 0
Text = List ℕ

-- The codes of a literal
abbrev pub codes : String → Text
codes String.[] = []
codes (String.◌∷◌ c s) = code c ∷ codes s

abbrev pub same_text : Text → Text → Bool
same_text [] [] = true
same_text [] (_ ∷ _) = false
same_text (_ ∷ _) [] = false
same_text (a ∷ s) (b ∷ t) = a == b && same_text s t

pub same_text_iff : (s t : Text) → (same_text s t ≡ true) ↔ (s ≡ t)
same_text_iff [] [] = ((λ _. refl), λ _. refl)
same_text_iff [] (b ∷ t) = ((λ h. cc h), λ h. cc h)
same_text_iff (a ∷ s) [] = ((λ h. cc h), λ h. cc h)
same_text_iff (a ∷ s) (b ∷ t) =
    ((λ h. ground (arith, same_text_iff s t)), λ h. ground (arith, same_text_iff s t))

abbrev pub is_space : ℕ → Bool
is_space c = c == 32 || leb 9 c && leb c 13

abbrev pub lower : ℕ → ℕ
lower c = if leb b'A' c && leb c b'Z' then c + 32 else c

-- `[a-z0-9]`
abbrev pub is_alnum : ℕ → Bool
is_alnum c = leb b'a' c && leb c b'z' || leb b'0' c && leb c b'9'

abbrev pub drop_while : (ℕ → Bool) → Text → Text
drop_while p [] = []
drop_while p (c ∷ s) = let rest = drop_while p s in if p c then rest else c ∷ s

-- Without the characters at both ends that meet the test
unfoldable pub trim_by : (ℕ → Bool) → Text → Text
trim_by p s = reverse (drop_while p (reverse (drop_while p s)))

-- `trim()`
unfoldable pub trim : Text → Text
trim = trim_by is_space

-- `toLowerCase()`
abbrev pub to_lower : Text → Text
to_lower = map lower

-- `replace(/[^a-z0-9]+/g, mark)`; the flag says that the run before has been replaced.
abbrev pub marked : ℕ → Bool → Text → Text
marked mark in_run [] = []
marked mark true (c ∷ s) =
    let kept = c ∷ marked mark false s in
    let more = marked mark true s in if is_alnum c then kept else more
marked mark false (c ∷ s) =
    let kept = c ∷ marked mark false s in
    let more = mark ∷ marked mark true s in if is_alnum c then kept else more

-- A name as a key: `.trim().toLowerCase().replace(/[^a-z0-9]+/g, mark)`, without marks at the ends,
-- cut off after `n` characters.
unfoldable pub key_text : ℕ → ℕ → Text → Text
key_text mark n s = take n (trim_by (λ c. c == mark) (marked mark false (to_lower (trim s))))
