-- ===== src/LogParser/Batch/Requested.antt =====
-- The targets and outbounds that lines name, which are counted whoever the user is.
use mathlib.Core.List.{map-append}
use xray_exporter.Common.{
  ℕ, zero, suc, ◌+◌, ◌≡◌, ◌≢◌, refl, ap, ap₂, ◌∙◌, inl, inr, ◌⊎◌, Bool, true, ◌&&◌, Bool-cases,
  Option, none, some, List, [], ◌∷◌, ◌++◌, map, arith,
}
use xray_exporter.Text.{Text, text_eq}
use xray_exporter.GoMap.{lookup, Distinct, text_eq→eq}
use xray_exporter.GoMap.Keys.{has_text}
use xray_exporter.LogParser.Ring.{Time}
use xray_exporter.LogParser.Counts.{Counts, CountMaps}
use xray_exporter.LogParser.Counts.Merge.{merge_counts-Distinct}
use xray_exporter.LogParser.Line.Client.{LogEntry}
use xray_exporter.LogParser.Batch.{Setting, entry_of_line}
use xray_exporter.LogParser.Batch.Tally.{occurrences, increased, lookup-merge_counts-count_all}
use xray_exporter.LogParser.Batch.Counted.{
  LineNames, line_names, no_names, target_names, names_of_entry,
}
use xray_exporter.LogParser.Loop.Core.{counted}

-- The three kinds of names that do not depend on the user of a line.
pub data Kind : Type 0 where
  of_domains of_ips of_outbounds : Kind

abbrev pub counts_of : Kind → CountMaps → Counts
counts_of of_domains m = m.domains
counts_of of_ips m = m.ips
counts_of of_outbounds m = m.outbounds

abbrev name_of : Kind → LineNames → Option Text
name_of of_domains n = n.domain
name_of of_ips n = n.ip
name_of of_outbounds n = n.outbound

abbrev names_of_parsed : Setting → Text → Option LogEntry → LineNames
names_of_parsed s line none = no_names
names_of_parsed s line (some entry) = target_names s line

-- The name of a kind that a line asks for, if it is a line that is read.
unfoldable pub requested : Kind → Setting → Text → Option Text
requested kind s line = name_of kind (names_of_parsed s line (entry_of_line s line))

-- How many of the lines ask for a name.
unfoldable pub requests : Kind → Setting → Text → List Text → ℕ
requests kind s k lines = occurrences k (map (requested kind s) lines)

-- Whether a name, if there is one, is known.
abbrev is_known : List Text → Option Text → Bool
is_known known none = true
is_known known (some k) = has_text k known

-- Whether every name that the lines ask for is known.
unfoldable pub all_known : Kind → Setting → List Text → List Text → Bool
all_known kind s known [] = true
all_known kind s known (line ∷ lines) =
    is_known known (requested kind s line) && all_known kind s known lines

known_occurrences :
    (known : List Text) (k : Text) (o : Option Text) (names : List (Option Text))
    → is_known known o ≡ true
    → occurrences k (o ∷ names) ≢ 0
    → (has_text k known ≡ true) ⊎ (occurrences k names ≢ 0)
unfolding occurrences
known_occurrences known k none names e h = inr h
known_occurrences known k (some j) names e h = elim (Bool-cases (text_eq j k)) [
  | inl same ↦ inl (rw (← text_eq→eq j k same) e)
  | inr other ↦ inr (rw other at h)
]

pub all_known-requests :
    (kind : Kind) (s : Setting) (known lines : List Text) (k : Text)
    → all_known kind s known lines ≡ true
    → requests kind s k lines ≢ 0
    → has_text k known ≡ true
unfolding all_known requests
all_known-requests kind s known [] k e h = unfold occurrences in absurd (h refl)
all_known-requests kind s known (line ∷ lines) k e h =
    elim (known_occurrences known k (requested kind s line) _ (ground arith) h) [
      | inl found ↦ found
      | inr more ↦ all_known-requests kind s known lines k (ground arith) more
    ]

name_of-names_of_entry :
    (kind : Kind) (s : Setting) (cutoff : Time) (line : Text) (o : Option LogEntry)
    → name_of kind (names_of_entry s cutoff line o) ≡ name_of kind (names_of_parsed s line o)
name_of-names_of_entry kind s cutoff line none = refl
name_of-names_of_entry of_domains s cutoff line (some entry) = ground arith
name_of-names_of_entry of_ips s cutoff line (some entry) = ground arith
name_of-names_of_entry of_outbounds s cutoff line (some entry) = ground arith

occurrences-append :
    (k : Text) (a b : List (Option Text))
    → occurrences k (a ++ b) ≡ occurrences k a + occurrences k b
unfolding occurrences
occurrences-append k [] b = omega arith
occurrences-append k (none ∷ a) b = occurrences-append k a b
occurrences-append k (some j ∷ a) b = ground (arith, occurrences-append k a b)

pub requests-append :
    (kind : Kind) (s : Setting) (k : Text) (a b : List Text)
    → requests kind s k (a ++ b) ≡ requests kind s k a + requests kind s k b
unfolding requests
requests-append kind s k a b =
    ap (occurrences k) (map-append (requested kind s) a b)
    ∙ occurrences-append k (map (requested kind s) a) (map (requested kind s) b)

pub increased-add : (n m : ℕ) → increased (increased none n) m ≡ increased none (n + m)
increased-add zero m = let same : m ≡ 0 + m = omega arith in ap (increased none) same
increased-add (suc n) zero = let same : suc n ≡ suc n + 0 = omega arith in ap (increased none) same
increased-add (suc n) (suc m) =
    let sum : suc n + suc m ≡ suc (n + suc m) = omega arith in rw sum (ap some (omega arith))

names_of_kind :
    (kind : Kind) (s : Setting) (cutoff : Time) (lines : List Text)
    → map (name_of kind) (map (line_names s cutoff) lines) ≡ map (requested kind s) lines
unfolding line_names requested
names_of_kind kind s cutoff [] = refl
names_of_kind kind s cutoff (line ∷ lines) =
    ap₂ ◌∷◌ (name_of-names_of_entry kind s cutoff line (entry_of_line s line))
      (names_of_kind kind s cutoff lines)

-- A batch raises the counts of the kind by the requests of its lines.
pub lookup-counted :
    (kind : Kind) (s : Setting) (cutoff : Time) (lines : List Text) (m : CountMaps) (k : Text)
    → lookup k (counts_of kind (counted s cutoff lines m))
      ≡ increased (lookup k (counts_of kind m)) (requests kind s k lines)
unfolding requests
lookup-counted of_domains s cutoff lines m k =
    lookup-merge_counts-count_all k _ m.domains
    ∙ ap (λ names. increased (lookup k m.domains) (occurrences k names))
        (names_of_kind of_domains s cutoff lines)
lookup-counted of_ips s cutoff lines m k =
    lookup-merge_counts-count_all k _ m.ips
    ∙ ap (λ names. increased (lookup k m.ips) (occurrences k names))
        (names_of_kind of_ips s cutoff lines)
lookup-counted of_outbounds s cutoff lines m k =
    lookup-merge_counts-count_all k _ m.outbounds
    ∙ ap (λ names. increased (lookup k m.outbounds) (occurrences k names))
        (names_of_kind of_outbounds s cutoff lines)

pub counted-Distinct :
    (kind : Kind) (s : Setting) (cutoff : Time) (lines : List Text) (m : CountMaps)
    → Distinct (counts_of kind m)
    → Distinct (counts_of kind (counted s cutoff lines m))
counted-Distinct of_domains s cutoff lines m d = merge_counts-Distinct m.domains _ d
counted-Distinct of_ips s cutoff lines m d = merge_counts-Distinct m.ips _ d
counted-Distinct of_outbounds s cutoff lines m d = merge_counts-Distinct m.outbounds _ d
