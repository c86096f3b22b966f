-- ===== src/Text.antt =====
-- Go strings and the functions of package `strings` that the program calls.
-- A text is the list of its runes where the program treats it as text (the snapshot package), and
-- of its bytes where the program indexes it (the log parser); literals are ASCII, where both agree.
pub mod Split
pub mod Order
pub mod Bytes
pub mod Index
pub mod Trim
use Prim.Native.Char.{code}
use xray_exporter.Common.{
  ℕ, zero, suc, ◌+◌, ◌-◌, Bool, true, false, ◌&&◌, ◌||◌, Option, none, some, List, [], ◌∷◌, map,
  String, ltb, leb, ◌==◌, if◌then◌else◌, length,
}

abbrev pub Text : Type 0
Text = List ℕ

-- The code points of a literal. `String` has its own `[]` and `∷`.
abbrev pub codes : String → Text
codes String.[] = []
codes (String.◌∷◌ c s) = code c ∷ codes s

unfoldable pub text_eq : Text → Text → Bool
text_eq [] [] = true
text_eq (a ∷ s) (b ∷ t) = if a == b then text_eq s t else false
text_eq _ _ = false

-- The order of Go's `<` on strings, byte by byte; UTF-8 keeps the order of code points.
unfoldable pub text_less : Text → Text → Bool
text_less _ [] = false
text_less [] (b ∷ t) = true
text_less (a ∷ s) (b ∷ t) = if ltb a b then true else if ltb b a then false else text_less s t

-- unicode.IsSpace
unfoldable pub is_space : ℕ → Bool
is_space c =
    (leb 0x09 c && leb c 0x0d)
    || c == 0x20
    || c == 0x85
    || c == 0xa0
    || c == 0x1680
    || (leb 0x2000 c && leb c 0x200a)
    || c == 0x2028
    || c == 0x2029
    || c == 0x202f
    || c == 0x205f
    || c == 0x3000

abbrev pub is_empty : Text → Bool
is_empty [] = true
is_empty (c ∷ s) = false

unfoldable pub trim_start : (ℕ → Bool) → Text → Text
trim_start p [] = []
trim_start p (c ∷ s) = if p c then trim_start p s else c ∷ s

unfoldable pub trim_end : (ℕ → Bool) → Text → Text
trim_end p [] = []
trim_end p (c ∷ s) = let rest = trim_end p s in if is_empty rest && p c then [] else c ∷ rest

-- strings.TrimSpace; strings.Trim and strings.TrimRight take the cut set as a test.
unfoldable pub trim_space : Text → Text
unfolding trim_start trim_end is_space
trim_space s = trim_end is_space (trim_start is_space s)

-- strings.ToLower maps each rune; `unicode_lower` is the table for the runes beyond ASCII.
unfoldable pub to_lower : (ℕ → ℕ) → Text → Text
to_lower unicode_lower =
    map
      λ c. if ltb c 0x80 then (if leb b'A' c && leb c b'Z' then c + 32 else c) else unicode_lower c

unfoldable pub contains_rune : ℕ → Text → Bool
contains_rune c [] = false
contains_rune c (d ∷ s) = if d == c then true else contains_rune c s

unfoldable pub has_prefix : Text → Text → Bool
has_prefix [] s = true
has_prefix (c ∷ p) [] = false
has_prefix (c ∷ p) (d ∷ s) = if c == d then has_prefix p s else false

-- strings.Index: the first place where `sub` occurs.
unfoldable pub index : Text → Text → Option ℕ
unfolding has_prefix
index sub [] = if is_empty sub then some 0 else none
index sub (c ∷ s) =
    if has_prefix sub (c ∷ s)
    then some 0
    else elim (index sub s) [ none ↦ none | some i ↦ some (suc i) ]

cons_head : ℕ → List Text → List Text
cons_head c [] = (c ∷ []) ∷ []
cons_head c (p ∷ ps) = (c ∷ p) ∷ ps

-- strings.Split at a separator that is not empty; `skip` counts the bytes of a separator that is
-- being passed over.
unfoldable pub split_from : Text → ℕ → Text → List Text
unfolding has_prefix cons_head
split_from sep skip [] = [] ∷ []
split_from sep (suc skip) (c ∷ s) = split_from sep skip s
split_from sep zero (c ∷ s) =
    let rest = split_from sep 0 s in
    let after = split_from sep (length sep - 1) s in
    if has_prefix sep (c ∷ s) then [] ∷ after else cons_head c rest

unfoldable pub split : Text → Text → List Text
unfolding split_from
split sep s = split_from sep 0 s
