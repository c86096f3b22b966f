-- ===== src/LogParser/Line/Target.antt =====
-- The target that a line of the log was written with is the one that is read.
use mathlib.Core.List.{append_assoc}
use xray_exporter.Common.{
  ℕ, ◌≡◌, refl, ap, ◌∙◌, inl, inr, false, none, some, [], ◌∷◌, ◌++◌, ==_iff, arith, length, drop,
  Option-cases,
}
use xray_exporter.Text.{Text, has_prefix, codes, index, contains_rune}
use xray_exporter.Text.Index.{index-append, index-byte, take_append, drop_append}
use xray_exporter.LogParser.Line.{
  last_index, start_index, without_port, host_at, host_after, extract_domain,
}

last_index-none : (b : ℕ) (s : Text) → contains_rune b s ≡ false → last_index b s ≡ none
unfolding last_index contains_rune
last_index-none b [] h = refl
last_index-none b (c ∷ s) h = ground (arith, last_index-none b s)

-- The last place of a byte that does not come again.
last_index-byte :
    (b : ℕ) (s t : Text) → contains_rune b t ≡ false → last_index b (s ++ b ∷ t) ≡ some (length s)
unfolding last_index
last_index-byte b [] t h = rw (last_index-none b t h) (ground (arith, ==_iff b b))
last_index-byte b (c ∷ s) t h = rw (last_index-byte b s t h) refl

-- The protocol before a target.
pub data Network : Type 0 where
  tcp udp : Network

abbrev pub network_text : Network → Text
network_text tcp = codes "tcp:"
network_text udp = codes "udp:"

contains_rune-append :
    (b : ℕ) (s t : Text)
    → contains_rune b s ≡ false
    → contains_rune b t ≡ false
    → contains_rune b (s ++ t) ≡ false
unfolding contains_rune
contains_rune-append b [] t h k = k
contains_rune-append b (c ∷ s) t h k = ground (arith, contains_rune-append b s t)

-- The number of bytes before a target, from "accepted " on.
start-written :
    (network : Network) (s : Text)
    → start_index
        (index (codes "tcp:") (codes "accepted " ++ network_text network ++ s))
        (index (codes "udp:") (codes "accepted " ++ network_text network ++ s))
      ≡ some 13
unfolding index start_index has_prefix
start-written tcp s = elim (Option-cases (index (codes "udp:") s)) [
  | inl e ↦ rw e refl
  | inr (i, e) ↦ rw e (ground arith)
]
start-written udp s = elim (Option-cases (index (codes "tcp:") s)) [
  | inl e ↦ rw e refl
  | inr (i, e) ↦ rw e (ground arith)
]

without_port-written :
    (host port : Text) → contains_rune 58 port ≡ false → without_port (host ++ 58 ∷ port) ≡ host
unfolding without_port
without_port-written host port c =
    rw (without_port, last_index-byte 58 host port c) (take_append host (58 ∷ port))

host_at-written :
    (host port rest : Text)
    → contains_rune 32 (host ++ 58 ∷ port) ≡ false
    → contains_rune 58 port ≡ false
    → host_at ((host ++ 58 ∷ port) ++ 32 ∷ rest) ≡ host
unfolding host_at
host_at-written host port rest h c =
    let target = host ++ 58 ∷ port in
    rw (host_at, index-byte 32 target rest h, take_append target (32 ∷ rest))
      (without_port-written host port c)

host_after-written :
    (network : Network) (s : Text)
    → host_after (codes "accepted " ++ network_text network ++ s) ≡ host_at s
unfolding host_after
host_after-written tcp s = rw (host_after, start-written tcp s) refl
host_after-written udp s = rw (host_after, start-written udp s) refl

-- A line whose first "accepted " is followed by "tcp:" or "udp:", a host, a colon, a port and a space:
-- the host is read back, whatever comes before and after, as long as neither has a space and the
-- port has no colon.
pub extract_domain-written :
    (client : Text) (network : Network) (host port rest : Text)
    → index (codes "accepted ") (client ++ codes "accepted ") ≡ some (length client)
    → contains_rune 32 host ≡ false
    → contains_rune 32 port ≡ false
    → contains_rune 58 port ≡ false
    → extract_domain (
        (client ++ codes "accepted ")
        ++ (network_text network ++ ((host ++ 58 ∷ port) ++ 32 ∷ rest)))
      ≡ host
unfolding extract_domain contains_rune
extract_domain-written client network host port rest first h p c =
    let target = (host ++ 58 ∷ port) ++ 32 ∷ rest in
    let spaces = contains_rune-append 32 host (58 ∷ port) h p in
    let found =
      index-append (codes "accepted ") (client ++ codes "accepted ")
        (network_text network ++ target) (length client) first in
    let left =
      ap (drop (length client))
        (append_assoc client (codes "accepted ") (network_text network ++ target))
      ∙ drop_append client (codes "accepted " ++ network_text network ++ target) in
    rw (extract_domain, found, left)
      (host_after-written network target ∙ host_at-written host port rest spaces c)
