-- ===== src/LogParser/Line/Client.antt =====
-- `parseLine` of internal/logparser/parser.go: the time and the client's address.
pub mod Formats
use xray_exporter.Common.{
  ℕ, Bool, true, false, ◌&&◌, ◌||◌, not, Option, none, some, List, [], ◌∷◌, ◌++◌, leb, ◌==◌,
  if◌then◌else◌, take, drop, length,
}
use xray_exporter.Text.{Text, codes, has_prefix}
use xray_exporter.LogParser.Ring.{Time}
use xray_exporter.LogParser.Filter.{Ip, IpText}
use xray_exporter.LogParser.Line.{last_index, normalize_ip_parsed}

-- `LogEntry`
pub record LogEntry : Type 0 where
  pub timestamp : Time
  pub ip : Text
  pub parsed_ip : Ip

-- What `parseLine` returns: an error, no entry, or an entry.
pub data Parsed : Type 0 where
  failed skipped : Parsed
  parsed : LogEntry → Parsed

infixl 10 ◌>>=◌
abbrev ◌>>=◌ {ℓ κ} : {A : Type ℓ} {B : Type κ} → Option A → (A → Option B) → Option B
◌>>=◌ none f = none
◌>>=◌ (some a) f = f a

-- The second search where the first finds nothing.
abbrev or_else {ℓ} : {A : Type ℓ} → Option A → Option A → Option A
or_else none b = b
or_else (some a) b = some a

is_digit : ℕ → Bool
is_digit c = leb b'0' c && leb c b'9'

-- A text against a pattern in which `d` stands for a digit.
fits : Text → Text → Bool
unfolding is_digit
fits [] s = true
fits (p ∷ pattern) [] = false
fits (p ∷ pattern) (c ∷ s) =
    if (if p == b'd' then is_digit c else c == p) then fits pattern s else false

-- `timestampRegex`
unfoldable pub match_timestamp : Text → Option Text
unfolding fits
match_timestamp line = if fits (codes "dddd/dd/dd dd:dd:dd") line then some (take 19 line) else none

-- The longest prefix of bytes that pass a test, and what follows.
pub span : (ℕ → Bool) → Text → Text × Text
span p [] = ([], [])
span p (c ∷ s) = let rest = span p s in if p c then (c ∷ rest.0, rest.1) else ([], c ∷ s)

-- `\S`
unfoldable pub not_space : ℕ → Bool
not_space c = not (c == 9 || c == 10 || c == 12 || c == 13 || c == 32)

read_on : Text → Text × Text → Option (Text × Text)
read_on read ([], rest) = none
read_on read (c ∷ run, rest) = some (read ++ c ∷ run, rest)

-- The longest prefix of bytes that pass a test, if there is one, after what was read already.
some_of : (ℕ → Bool) → Text × Text → Option (Text × Text)
unfolding span read_on
some_of p (read, s) = read_on read (span p s)

-- One byte.
byte : ℕ → Text × Text → Option (Text × Text)
byte b (read, []) = none
byte b (read, c ∷ s) = if c == b then some (read ++ b ∷ [], s) else none

-- What was read, where a colon follows.
then_colon : Text × Text → Option Text
then_colon (read, []) = none
then_colon (read, c ∷ s) = if c == b':' then some read else none

-- `(\d+\.\d+\.\d+\.\d+):` at the start of a text.
unfoldable pub dotted_quad : Text → Option Text
unfolding some_of byte then_colon is_digit
dotted_quad s = do
  a ← some_of is_digit ([], s)
  a ← byte b'.' a
  b ← some_of is_digit a
  b ← byte b'.' b
  c ← some_of is_digit b
  c ← byte b'.' c
  d ← some_of is_digit c
  then_colon d

-- `(\S+):`, up to the last colon that there is.
up_to_colon : Text → Option ℕ → Option Text
up_to_colon s none = none
up_to_colon s (some i) = if i == 0 then none else some (take i s)

unfoldable pub not_spaces : Text → Option Text
unfolding up_to_colon span not_space
not_spaces s = let run = (span not_space s).0 in up_to_colon run (last_index b':' run)

ip_or_word : Text → Option Text
unfolding dotted_quad not_spaces
ip_or_word s = or_else (dotted_quad s) (not_spaces s)

-- `newFormatIPRegex` after "from ": with "tcp:" passed over, or else without.
new_format_here : Text → Option Text
unfolding ip_or_word
new_format_here s =
    or_else (if has_prefix (codes "tcp:") s then ip_or_word (drop 4 s) else none) (ip_or_word s)

-- `\[([0-9a-fA-F:]+)\]:` at the start of a text.
hex_or_colon : ℕ → Bool
hex_or_colon c =
    (leb b'0' c && leb c b'9')
    || (leb b'a' c && leb c b'f')
    || (leb b'A' c && leb c b'F')
    || c == b':'

closed : Text × Text → Option Text
closed (read, []) = none
closed (read, c ∷ []) = none
closed (read, c ∷ d ∷ s) = if c == b']' && d == b':' then some read else none

bracketed : Text → Option Text
unfolding some_of hex_or_colon closed
bracketed [] = none
bracketed (c ∷ s) = if c == b'[' then some_of hex_or_colon ([], s) >>= closed else none

-- `oldFormatIPRegex` after "from ".
old_format_here : Text → Option Text
unfolding bracketed
old_format_here s = or_else (bracketed s) (dotted_quad s)

-- The leftmost "from " with a match after it.
search_from : (Text → Option Text) → Text → Option Text
search_from here [] = none
search_from here (c ∷ s) =
    let further = search_from here s in
    if has_prefix (codes "from ") (c ∷ s) then or_else (here (drop 4 s)) further else further

unfoldable pub new_format_ip : Text → Option Text
unfolding search_from new_format_here
new_format_ip = search_from new_format_here

unfoldable pub old_format_ip : Text → Option Text
unfolding search_from old_format_here
old_format_ip = search_from old_format_here

-- The entry of a time and an address as it is written.
entry_of : IpText → Time → Option Text → Parsed
entry_of texts timestamp none = skipped
entry_of texts timestamp (some []) = skipped
entry_of texts timestamp (some (c ∷ ip)) = elim (normalize_ip_parsed texts (c ∷ ip)) [
  | none ↦ skipped
  | some (normalized, address) ↦
      parsed (record { timestamp = timestamp; ip = normalized; parsed_ip = address })
]

-- `parseLine`; `parse_time` is time.Parse for the layout "2006/01/02 15:04:05".
unfoldable pub parse_line : IpText → (Text → Option Time) → Text → Parsed
unfolding match_timestamp new_format_ip old_format_ip entry_of
parse_line texts parse_time line = elim (match_timestamp line) [
  | none ↦ skipped
  | some written ↦ elim (parse_time written) [
    | none ↦ failed
    | some timestamp ↦ entry_of texts timestamp (or_else (new_format_ip line) (old_format_ip line))
  ]
]
