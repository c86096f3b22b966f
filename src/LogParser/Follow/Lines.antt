-- ===== src/LogParser/Follow/Lines.antt =====
-- The lines of bytes that grow.
use mathlib.Core.List.{append_assoc, append-nil}
use xray_exporter.Common.{
  ℕ, zero, suc, ◌+◌, ◌≤◌, ◌≡◌, refl, sym, ap, ◌∙◌, inl, inr, false, List, [], ◌∷◌, ◌++◌, ◌==◌,
  if◌then◌else◌, length, drop, arith, length-append, Bool-cases, take, take-append-drop,
  length-take,
}
use xray_exporter.Text.{Text}
use xray_exporter.LogParser.Follow.{newline, raw_lines, advance}

-- The bytes after the last newline.
unfoldable pub partial : Text → Text → Text
partial pending [] = pending
partial pending (c ∷ s) =
    let here = partial [] s in
    let further = partial (pending ++ c ∷ []) s in if c == newline then here else further

raw_lines-append :
    (pending s t : Text)
    → raw_lines pending (s ++ t) ≡ raw_lines pending s ++ raw_lines (partial pending s) t
unfolding raw_lines partial
raw_lines-append pending [] t = refl
raw_lines-append pending (c ∷ s) t =
    ground (arith, raw_lines-append [] s t, raw_lines-append (pending ++ c ∷ []) s t)

pub advance-append : (pos : ℕ) (a b : List Text) → advance pos (a ++ b) ≡ advance (advance pos a) b
unfolding advance
advance-append pos [] b = refl
advance-append pos (l ∷ a) b = advance-append (pos + length l) a b

abbrev pub IsPlain : Text → Type 0
IsPlain [] = Unit
IsPlain (c ∷ s) = ((c == newline) ≡ false) × IsPlain s

IsPlain-snoc : (s : Text) (c : ℕ) → IsPlain s → (c == newline) ≡ false → IsPlain (s ++ c ∷ [])
IsPlain-snoc [] c v h = (h, tt)
IsPlain-snoc (d ∷ s) c v h = (v.0, IsPlain-snoc s c v.1 h)

partial-IsPlain : (pending s : Text) → IsPlain pending → IsPlain (partial pending s)
unfolding partial
partial-IsPlain pending [] v = v
partial-IsPlain pending (c ∷ s) v = elim (Bool-cases (c == newline)) [
  | inl e ↦ rw e (partial-IsPlain [] s tt)
  | inr e ↦ rw e (partial-IsPlain (pending ++ c ∷ []) s (IsPlain-snoc pending c v e))
]

-- Bytes without a newline that come first are as if they were pending.
raw_lines-plain :
    (pending q t : Text) → IsPlain q → raw_lines pending (q ++ t) ≡ raw_lines (pending ++ q) t
unfolding raw_lines
raw_lines-plain pending [] t v = rw (append-nil pending) refl
raw_lines-plain pending (c ∷ q) t v = rw (v.0) (
    raw_lines-plain (pending ++ c ∷ []) q t v.1
    ∙ ap (λ x. raw_lines x t) (append_assoc pending (c ∷ []) q))

drop-append : (pending s : Text) → drop (length pending) (pending ++ s) ≡ s
drop-append [] s = refl
drop-append (c ∷ pending) s = drop-append pending s

-- What the lines leave of the bytes is the partial line.
drop-advance :
    (pos : ℕ) (before pending s t : Text)
    → pos ≡ length before
    → drop (advance pos (raw_lines pending s)) (before ++ (pending ++ (s ++ t)))
      ≡ partial pending s ++ t
unfolding raw_lines advance partial
drop-advance pos before pending [] t h = rw h (drop-append before (pending ++ t))
drop-advance pos before pending (c ∷ s) t h = elim (Bool-cases (c == newline)) [
  | inl e ↦
      let line = pending ++ c ∷ [] in
      let shape : before ++ (pending ++ (c ∷ s ++ t)) ≡ (before ++ line) ++ ([] ++ (s ++ t)) =
        rw (append_assoc before line (s ++ t), append_assoc pending (c ∷ []) (s ++ t)) refl in
      let counted : pos + length line ≡ length (before ++ line) =
        omega (arith, h, length-append before line) in
      rw (e, shape) (drop-advance (pos + length line) (before ++ line) [] s t counted)
  | inr e ↦
      let shape : pending ++ (c ∷ s ++ t) ≡ (pending ++ c ∷ []) ++ (s ++ t) =
        rw (append_assoc pending (c ∷ []) (s ++ t)) refl in
      rw (e, shape) (drop-advance pos before (pending ++ c ∷ []) s t h)
]

drop-append_le : (n : ℕ) (s t : Text) → n ≤ length s → drop n (s ++ t) ≡ drop n s ++ t
drop-append_le zero s t h = refl
drop-append_le (suc n) [] t h = absurd (omega arith)
drop-append_le (suc n) (c ∷ s) t h = drop-append_le n s t (omega arith)

drop-advance_from :
    (n : ℕ) (s t : Text)
    → n ≤ length s
    → drop (advance n (raw_lines [] (drop n s))) (s ++ t) ≡ partial [] (drop n s) ++ t
drop-advance_from n s t h =
    let whole = take-append-drop n s in
    let shape : s ++ t ≡ take n s ++ ([] ++ (drop n s ++ t)) =
      ap (λ x. x ++ t) (sym whole) ∙ append_assoc (take n s) (drop n s) t in
    let counted : n ≡ length (take n s) = omega (arith, length-take n s) in
    rw shape (drop-advance n (take n s) [] (drop n s) t counted)

-- Reading the bytes that are there and then, from where that ended, those of the longer file gives
-- the lines of the longer file.
pub raw_lines-twice :
    (n : ℕ) (s t : Text)
    → n ≤ length s
    → raw_lines [] (drop n (s ++ t))
      ≡ raw_lines [] (drop n s)
        ++ raw_lines [] (drop (advance n (raw_lines [] (drop n s))) (s ++ t))
raw_lines-twice n s t h =
    let q = partial [] (drop n s) in
    rw
      (
        drop-append_le n s t h,
        raw_lines-append,
        drop-advance_from n s t h,
        raw_lines-plain [] q t (partial-IsPlain [] (drop n s) tt),
      )
      refl

pub advance-le :
    (k : ℕ) (pending s : Text) → advance k (raw_lines pending s) ≤ k + length pending + length s
unfolding advance raw_lines
advance-le k pending [] = omega arith
advance-le k pending (c ∷ s) =
    let counted = length-append pending (c ∷ []) in
    let here = advance-le (k + length (pending ++ c ∷ [])) [] s in
    let further = advance-le k (pending ++ c ∷ []) s in
    elim (Bool-cases (c == newline)) [
      | inl e ↦ rw e (omega (arith, counted, here))
      | inr e ↦ rw e (omega (arith, counted, further))
    ]
