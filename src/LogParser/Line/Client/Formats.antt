-- ===== src/LogParser/Line/Client/Formats.antt =====
-- The two expressions for the client's address: where the old one finds an address, the new one did.
use mathlib.Core.List.{cons≢nil}
use xray_exporter.Common.{
  ℕ, suc, ◌≡◌, refl, sym, subst, inl, inr, true, Option, none, some, [], ◌∷◌, ◌++◌, ◌==◌, ==_iff,
  arith, take, drop, Option-cases, Bool-cases,
}
use xray_exporter.Text.{Text}
use xray_exporter.LogParser.Line.{last_index}
use xray_exporter.LogParser.Line.Client.{
  span, not_space, up_to_colon, not_spaces, dotted_quad, ip_or_word, new_format_here,
  old_format_here, hex_or_colon, read_on, some_of, closed, bracketed, search_from, new_format_ip,
  old_format_ip, or_else, ◌>>=◌,
}

last_index-found : (b : ℕ) (s t : Text) → (i : ℕ) × (last_index b (s ++ b ∷ t) ≡ some i)
unfolding last_index
last_index-found b [] t = elim (Option-cases (last_index b t)) [
  | inl e ↦ (0, rw e (ground (arith, ==_iff b b)))
  | inr (i, e) ↦ (suc i, rw e refl)
]
last_index-found b (c ∷ s) t = let (i, e) = last_index-found b s t in (suc i, rw e refl)

hex-not_space : (c : ℕ) → hex_or_colon c ≡ true → not_space c ≡ true
unfolding hex_or_colon not_space
hex-not_space c h = ground arith

-- Hexadecimal digits that are closed stand in a run of bytes that are not spaces, and so does the colon.
closed_run :
    (s t : Text)
    → (span hex_or_colon s).1 ≡ 93 ∷ 58 ∷ t
    → (i : ℕ) × (last_index 58 (span not_space s).0 ≡ some i)
unfolding span not_space last_index
closed_run [] t h = absurd (cons≢nil (sym h))
closed_run (c ∷ s) t h = elim (Bool-cases (hex_or_colon c)) [
  | inl e ↦
      let (i, found) = closed_run s t (rw (span, e) at h) in
      (suc i, rw (hex-not_space c e) (rw found refl))
  | inr e ↦
      subst (λ u. (i : ℕ) × (last_index 58 (span not_space u).0 ≡ some i)) (sym (rw (span, e) at h))
        (last_index-found 58 (93 ∷ []) (span not_space t).0)
]

closed_shape :
    (r : Text × Text) (x : Text)
    → (read_on [] r >>= closed) ≡ some x
    → (t : Text) × (r.1 ≡ 93 ∷ 58 ∷ t)
unfolding read_on closed
closed_shape ([], rest) x h = absurd (ground arith)
closed_shape (d ∷ run, []) x h = absurd (ground arith)
closed_shape (d ∷ run, a ∷ []) x h = absurd (ground arith)
closed_shape (d ∷ run, a ∷ b ∷ t) x h =
    let first : a ≡ 93 = ground (arith, ==_iff a 93) in
    let second : b ≡ 58 = ground (arith, ==_iff b 58) in (t, rw (first, second) refl)

after_bracket : (s : Text) → not_spaces (91 ∷ s) ≡ none → bracketed (91 ∷ s) ≡ none
unfolding bracketed some_of not_spaces up_to_colon span last_index not_space
after_bracket s h = elim (Option-cases (bracketed (91 ∷ s))) [
  | inl n ↦ n
  | inr (x, found) ↦
      let (t, shape) = closed_shape (span hex_or_colon s) x found in
      let (i, e) = closed_run s t shape in
      let run = (span not_space s).0 in
      let some_word : not_spaces (91 ∷ s) ≡ some (take (suc i) (91 ∷ run)) = rw e (ground arith) in
      absurd (ground (arith, some_word, h))
]

bracketed-not_spaces : (s : Text) → not_spaces s ≡ none → bracketed s ≡ none
unfolding bracketed
bracketed-not_spaces [] h = refl
bracketed-not_spaces (c ∷ s) h = elim (Bool-cases (c == 91)) [
  | inr e ↦ rw e refl
  | inl e ↦
      subst (λ b. not_spaces (b ∷ s) ≡ none → bracketed (b ∷ s) ≡ none) (sym ((==_iff c 91).0 e))
        (after_bracket s) h
]

or_else-none : (a b : Option Text) → or_else a b ≡ none → (a ≡ none) × (b ≡ none)
or_else-none none b h = (refl, h)
or_else-none (some a) b h = absurd (ground arith)

old_format_here-none : (s : Text) → new_format_here s ≡ none → old_format_here s ≡ none
unfolding new_format_here old_format_here ip_or_word
old_format_here-none s h =
    let (_, plain) = or_else-none _ (ip_or_word s) h in
    let (dotted, spaces) = or_else-none (dotted_quad s) (not_spaces s) plain in
    rw (bracketed-not_spaces s spaces, dotted) refl

search_from-none :
    (here there : Text → Option Text)
    → ((s : Text) → here s ≡ none → there s ≡ none)
    → (line : Text) → search_from here line ≡ none
    → search_from there line ≡ none
unfolding search_from
search_from-none here there h [] e = refl
search_from-none here there h (c ∷ s) e =
    ground (arith, h (drop 4 s), search_from-none here there h s)

-- Where the expression for the new format finds no address, the one for the old format finds none
-- either.
pub old_format_ip-none : (line : Text) → new_format_ip line ≡ none → old_format_ip line ≡ none
unfolding new_format_ip old_format_ip
old_format_ip-none line h =
    search_from-none new_format_here old_format_here old_format_here-none line h
