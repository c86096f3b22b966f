-- ===== src/Main/Server/Mux.antt =====
-- What is relied on of `http.ServeMux`: its documentation of patterns, for patterns that are plain
-- paths, and of requests whose path it neither cleans nor redirects.
pub mod Longest
use xray_exporter.Common.{
  ℕ, ◌≤◌, ◌≡◌, ◌==◌, Bool, true, false, ◌&&◌, ◌||◌, not, Option, none, some, List, [], ◌∷◌, ◌++◌,
  length, any, All, if◌then◌else◌,
}
use xray_exporter.Common.Members.{last?}
use xray_exporter.Text.{Text, codes, text_eq, has_prefix, index}
use xray_exporter.GoMap.Keys.{has_text}

-- A character with no meaning in a pattern: not a blank, a brace or a percent sign.
abbrev is_literal : ℕ → Bool
is_literal c = not (c == 9 || c == b' ' || c == b'{' || c == b'}' || c == b'%')

abbrev all_literal : Text → Bool
all_literal [] = true
all_literal (c ∷ s) = is_literal c && all_literal s

-- A pattern with no method, host, wildcard or escape.
abbrev pub is_plain : Text → Bool
is_plain [] = false
is_plain (c ∷ s) = c == b'/' && all_literal s

abbrev pub all_plain : List Text → Bool
all_plain [] = true
all_plain (p ∷ ps) = is_plain p && all_plain ps

-- A text stands in the list twice.
abbrev pub repeats : List Text → Bool
repeats [] = false
repeats (p ∷ ps) = has_text p ps || repeats ps

abbrev ends_in : ℕ → Option ℕ → Bool
ends_in c none = false
ends_in c (some d) = c == d

-- A pattern that ends in a slash names the paths below it, any other one path.
unfoldable pub matches : Text → Text → Bool
unfolding last?
matches pattern path =
    if ends_in b'/' (last? pattern) then has_prefix pattern path else text_eq pattern path

abbrev is_absent : Option ℕ → Bool
is_absent none = true
is_absent (some i) = false

-- A path that stays as it is when it is cleaned.
unfoldable pub is_clean : Text → Bool
unfolding index
is_clean path =
    is_plain path && is_absent (index (codes "//") path) && is_absent (index (codes "/.") path)

-- A path that is not redirected to the one with a slash behind it.
abbrev pub is_served : List Text → Text → Bool
is_served ps path = is_clean path && (has_text path ps || not (has_text (path ++ codes "/") ps))

-- The longest pattern that matches.
abbrev pub IsBest : List Text → Text → Option Text → Type 0
IsBest ps path none = All (λ q. matches q path ≡ false) ps
IsBest ps path (some p) =
    (has_text p ps ≡ true)
    × (matches p path ≡ true)
    × All (λ q. matches q path ≡ true → length q ≤ length p) ps

-- The registration of patterns on a new multiplexer, which panics at a pattern that is there already,
-- and the pattern that a request's path is served by.
pub record ServeMux : Type 0 where
  pub register : List Text → Option (Text → Option Text)
  pub repeated : (ps : List Text) → repeats ps ≡ true → register ps ≡ none
  pub accepted :
      (ps : List Text)
      → all_plain ps ≡ true
      → repeats ps ≡ false
      → (choose : Text → Option Text) × (register ps ≡ some choose)
  pub best :
      (ps : List Text) (choose : Text → Option Text)
      → all_plain ps ≡ true
      → register ps ≡ some choose
      → (path : Text) → is_served ps path ≡ true
      → IsBest ps path (choose path)
