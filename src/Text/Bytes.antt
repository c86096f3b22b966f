-- ===== src/Text/Bytes.antt =====
-- strings.TrimSpace on a text of bytes: a space beyond ASCII is two or three bytes of UTF-8.
use xray_exporter.Common.{
  ℕ, zero, suc, ◌-◌, Bool, true, false, ◌&&◌, ◌||◌, [], ◌∷◌, leb, ◌==◌, if◌then◌else◌, get_or,
}
use xray_exporter.Text.{Text}

-- The number of bytes of the space that a text begins with; 0 if it begins with none.
unfoldable pub space_width : Text → ℕ
space_width s =
    let a = get_or s 0 0 in
    let b = get_or s 1 0 in
    let c = get_or s 2 0 in
    if (leb 0x09 a && leb a 0x0d) || a == 0x20
    then 1
    else if a == 0xc2 && (b == 0x85 || b == 0xa0)
    then 2
    else if (a == 0xe1 && b == 0x9a && c == 0x80)
        || (a == 0xe2
            && b == 0x80
            && ((leb 0x80 c && leb c 0x8a) || c == 0xa8 || c == 0xa9 || c == 0xaf))
        || (a == 0xe2 && b == 0x81 && c == 0x9f)
        || (a == 0xe3 && b == 0x80 && c == 0x80)
    then 3
    else 0

-- `skip` counts the bytes of a space that is being passed over.
unfoldable pub trim_left : ℕ → Text → Text
unfolding space_width
trim_left skip [] = []
trim_left (suc skip) (c ∷ s) = trim_left skip s
trim_left zero (c ∷ s) =
    let width = space_width (c ∷ s) in
    let rest = trim_left (width - 1) s in if width == 0 then c ∷ s else rest

unfoldable pub all_spaces : ℕ → Text → Bool
unfolding space_width
all_spaces skip [] = true
all_spaces (suc skip) (c ∷ s) = all_spaces skip s
all_spaces zero (c ∷ s) =
    let width = space_width (c ∷ s) in
    let rest = all_spaces (width - 1) s in if width == 0 then false else rest

unfoldable pub trim_right : Text → Text
unfolding all_spaces
trim_right [] = []
trim_right (c ∷ s) = let rest = trim_right s in if all_spaces 0 (c ∷ s) then [] else c ∷ rest

unfoldable pub trim_space_bytes : Text → Text
unfolding trim_left trim_right
trim_space_bytes s = trim_right (trim_left 0 s)
