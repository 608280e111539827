-- ===== src/Prelude/Texts.antt =====
-- Strings, by their characters: put together and taken apart.
use Prim.Native.Nat.{ℕ}
use Prim.Native.Char.{Char, code}
use Prim.Native.String.{String, ◌++◌}
use Prim.Native.String.append.{nil as append_nil, cons as append_cons}
use mathlib.Core.Path.{◌≡◌, refl}
use mathlib.Core.Bool.{Bool, true, false, ◌&&◌, ◌||◌}
use text.Mathlib.Text.{◌==◌}
use mathlib.Core.List.{List, [], ◌∷◌}
use mathlib.Core.Logic.{inl, inr}
use uumi.Prelude.Tests.{Bool-cases, eqb, if◌then◌else◌}
use uumi.Prelude.Lists.{All}

-- `a + b` of two strings
abbrev pub concat : String → String → String
concat a b = a ++ b

-- `char in text`, for the character with that number
abbrev pub has_char : ℕ → String → Bool
has_char sep String.[] = false
has_char sep (String.◌∷◌ c s) = eqb (code c) sep || has_char sep s

-- A character in front of the first part.
abbrev pub onto_first : Char → List String → List String
onto_first c [] = String.◌∷◌ c "" ∷ []
onto_first c (part ∷ parts) = String.◌∷◌ c part ∷ parts

-- `text.split(char)`
abbrev pub split : ℕ → String → List String
split sep String.[] = "" ∷ []
split sep (String.◌∷◌ c s) =
    let rest = split sep s in if eqb (code c) sep then "" ∷ rest else onto_first c rest

-- `text[1:]`
abbrev pub tail_of : String → String
tail_of String.[] = ""
tail_of (String.◌∷◌ c s) = s

-- `text[:-1]`
abbrev pub without_last : String → String
without_last String.[] = ""
without_last (String.◌∷◌ c s) =
    let rest = without_last s in if s == "" then "" else String.◌∷◌ c rest

-- `text.endswith(suffix)`
abbrev pub ends_with : String → String → Bool
ends_with String.[] suffix = suffix == ""
ends_with (String.◌∷◌ c s) suffix = String.◌∷◌ c s == suffix || ends_with s suffix

-- `text.rstrip(char)`
abbrev pub rstrip : ℕ → String → String
rstrip sep String.[] = ""
rstrip sep (String.◌∷◌ c s) =
    let rest = rstrip sep s in if eqb (code c) sep && rest == "" then "" else String.◌∷◌ c rest

neither : (a b : Bool) → (a || b) ≡ false → (a ≡ false) × (b ≡ false)
neither false false h = (refl, refl)
neither false true h = cc
neither true b h = cc

-- A part without the separator, and what follows the separator after it.
pub split-concat :
    (sep : ℕ) (part : String) (c : Char) (rest : String)
    → has_char sep part ≡ false
    → eqb (code c) sep ≡ true
    → split sep (concat part (String.◌∷◌ c rest)) ≡ part ∷ split sep rest
split-concat sep String.[] c rest without is_sep = rw (append_nil (String.◌∷◌ c rest), is_sep) refl
split-concat sep (String.◌∷◌ d part) c rest without is_sep =
    let (other, clean) = neither (eqb (code d) sep) (has_char sep part) without in
    let rest_split = split-concat sep part c rest clean is_sep in
    rw (append_cons d part (String.◌∷◌ c rest), other, rest_split) refl

-- The parts of two texts put together with a separator between them.
pub split-join :
    (sep : ℕ) (a : String) (c : Char) (b : String)
    → has_char sep a ≡ false
    → eqb (code c) sep ≡ true
    → split sep (concat a (concat (String.◌∷◌ c "") b)) ≡ a ∷ split sep b
split-join sep a c b clean is_sep =
    rw (append_cons c "" b, append_nil b) (split-concat sep a c b clean is_sep)

-- A text without the separator is its only part.
pub split_whole : (sep : ℕ) (part : String) → has_char sep part ≡ false → split sep part ≡ part ∷ []
split_whole sep String.[] without = refl
split_whole sep (String.◌∷◌ d part) without =
    let (other, clean) = neither (eqb (code d) sep) (has_char sep part) without in
    let rest_split = split_whole sep part clean in rw (other, rest_split) refl

onto_first-Lacks :
    (sep : ℕ) (c : Char) (parts : List String)
    → eqb (code c) sep ≡ false
    → All (λ part. has_char sep part ≡ false) parts
    → All (λ part. has_char sep part ≡ false) (onto_first c parts)
onto_first-Lacks sep c [] other h = (rw other refl, tt)
onto_first-Lacks sep c (part ∷ parts) other (h, hs) = (rw (other, h) refl, hs)

-- No part has the separator.
pub split-Lacks : (sep : ℕ) (s : String) → All (λ part. has_char sep part ≡ false) (split sep s)
split-Lacks sep String.[] = (refl, tt)
split-Lacks sep (String.◌∷◌ c s) = elim (Bool-cases (eqb (code c) sep)) [
  | inl is_sep ↦ rw is_sep (refl, split-Lacks sep s)
  | inr other ↦ rw other (onto_first-Lacks sep c (split sep s) other (split-Lacks sep s))
]
