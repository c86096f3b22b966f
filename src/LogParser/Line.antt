-- ===== src/LogParser/Line.antt =====
-- internal/logparser/parser.go: what is read off one line of the access log. Texts are bytes here;
-- a regular expression is written out as the search that finds its leftmost match.
pub mod Client
pub mod Target
mod Tests
use xray_exporter.Common.{
  ℕ, suc, ◌+◌, ◌-◌, Bool, true, false, ◌&&◌, ◌||◌, not, Option, none, some, List, [], ◌∷◌, ◌++◌,
  ltb, leb, ◌==◌, if◌then◌else◌, length, take, drop, get_or,
}
use xray_exporter.Text.{
  Text, codes, is_empty, has_prefix, index, contains_rune, trim_start, trim_end, split,
}
use xray_exporter.Text.Bytes.{trim_space_bytes}
use xray_exporter.LogParser.Filter.{Ip, IpText}

-- strings.Contains
unfoldable pub contains_text : Text → Text → Bool
unfolding index
contains_text sub s = elim (index sub s) [ none ↦ false | some i ↦ true ]

-- strings.LastIndex of one byte
unfoldable pub last_index : ℕ → Text → Option ℕ
last_index c [] = none
last_index c (d ∷ s) = elim (last_index c s) [
  | none ↦ if d == c then some 0 else none
  | some i ↦ some (suc i)
]

-- `shouldSkipLine`
unfoldable pub should_skip_line : Text → Bool
unfolding contains_text
should_skip_line line =
    let first = get_or line 0 0 in
    if ltb (length line) 19
    then true
    else if ltb (length line) 4 || ltb first b'1' || ltb b'9' first || not (get_or line 4 0 == b'/')
    then true
    else if has_prefix (codes "#") line
    then true
    else not (contains_text (codes "from ") line)

-- publicsuffix.EffectiveTLDPlusOne; an error is `none`.
abbrev pub PublicSuffix : Type 0
PublicSuffix = Text → Option Text

-- The last two labels of a name that has two.
last_labels : Text → List Text → Text
last_labels domain [] = domain
last_labels domain (p ∷ []) = domain
last_labels domain (p ∷ q ∷ []) = p ++ codes "." ++ q
last_labels domain (p ∷ q ∷ r ∷ parts) = last_labels domain (q ∷ r ∷ parts)

fallback : Text → Text
unfolding last_labels
fallback domain = last_labels domain (split (codes ".") domain)

-- `getRootDomain`
unfoldable pub get_root_domain : PublicSuffix → Text → Text
unfolding fallback
get_root_domain suffix domain = if is_empty domain then [] else elim (suffix domain) [
  | none ↦ fallback domain
  | some root ↦ if is_empty root then fallback domain else root
]

-- What the expression `\[[^\]]*?(?:->|>>)\s*([^\]]+?)\]` finds between a bracket and the next `]`.
regexp_space : ℕ → Bool
regexp_space c = c == 9 || c == 10 || c == 12 || c == 13 || c == 32

-- The group after the arrow: without the spaces before it, or the last of them if there is no more.
group_of : Text → Text
unfolding regexp_space
group_of s =
    let name = trim_start regexp_space s in if is_empty name then drop (length s - 1) s else name

arrow_group : Text → Option Text
unfolding group_of
arrow_group [] = none
arrow_group (c ∷ s) =
    let further = arrow_group s in
    let arrow = has_prefix (codes "->") (c ∷ s) || has_prefix (codes ">>") (c ∷ s) in
    let group = drop 1 s in if arrow && not (is_empty group) then some (group_of group) else further

-- The text before the first `]`.
before_bracket : Text → Option Text
before_bracket [] = none
before_bracket (c ∷ s) =
    let rest = before_bracket s in
    if c == b']' then some [] else elim rest [ none ↦ none | some t ↦ some (c ∷ t) ]

bracket_group : Text → Option Text
unfolding arrow_group before_bracket
bracket_group s = elim (before_bracket s) [ none ↦ none | some inside ↦ arrow_group inside ]

unfoldable pub match_outbound : Text → Option Text
unfolding bracket_group
match_outbound [] = none
match_outbound (c ∷ s) =
    let further = match_outbound s in
    if c == b'[' then elim (bracket_group s) [ none ↦ further | some name ↦ some name ] else further

-- `extractOutbound`
unfoldable pub extract_outbound : Text → Text
unfolding match_outbound
extract_outbound line = elim (match_outbound line) [ none ↦ [] | some name ↦ trim_space_bytes name ]

-- `isIPAddressFast`
ip_character : ℕ → Bool
ip_character c =
    (leb b'0' c && leb c b'9')
    || c == b'.'
    || c == b':'
    || (leb b'a' c && leb c b'f')
    || (leb b'A' c && leb c b'F')

all_ip_characters : Text → Bool
unfolding ip_character
all_ip_characters [] = true
all_ip_characters (c ∷ s) = if ip_character c then all_ip_characters s else false

unfoldable pub is_ip_address_fast : Text → Bool
unfolding all_ip_characters
is_ip_address_fast s =
    if not (all_ip_characters s) then false else contains_rune b'.' s || contains_rune b':' s

-- Where the target starts in the text from "accepted " on.
start_index : Option ℕ → Option ℕ → Option ℕ
start_index (some tcp) none = some (tcp + 4)
start_index (some tcp) (some udp) = if ltb tcp udp then some (tcp + 4) else some (udp + 4)
start_index none (some udp) = some (udp + 4)
start_index none none = none

-- The target up to its last colon.
without_port : Text → Text
unfolding last_index
without_port domain_port = elim (last_index b':' domain_port) [
  | none ↦ []
  | some colon ↦ take colon domain_port
]

host_at : Text → Text
unfolding without_port
host_at s = elim (index (codes " ") s) [ none ↦ [] | some space ↦ without_port (take space s) ]

host_after : Text → Text
unfolding start_index host_at
host_after area = elim (start_index (index (codes "tcp:") area) (index (codes "udp:") area)) [
  | none ↦ []
  | some start ↦ host_at (drop start area)
]

-- `extractDomainOptimized`
unfoldable pub extract_domain : Text → Text
unfolding host_after
extract_domain line = elim (index (codes "accepted ") line) [
  | none ↦ []
  | some accepted ↦ host_after (drop accepted line)
]

-- `normalizeIPParsed`; `normalizeIP` is its text, or "".
unfoldable pub normalize_ip_parsed : IpText → Text → Option (Text × Ip)
normalize_ip_parsed texts ip =
    let bracket = λ (c : ℕ). c == b'[' || c == b']' in
    elim (texts.parse_ip (trim_end bracket (trim_start bracket ip))) [
      | none ↦ none
      | some parsed ↦ some (texts.ip_text parsed, parsed)
    ]

unfoldable pub normalize_ip : IpText → Text → Text
unfolding normalize_ip_parsed
normalize_ip texts ip = elim (normalize_ip_parsed texts ip) [ none ↦ [] | some r ↦ r.0 ]
