-- ===== src/Snapshot/Http.antt =====
-- internal/snapshot/http.go: the snapshot API.
pub mod Access
use xray_exporter.Common.{
  ℕ, ◌+◌, ◌-◌, ◌*◌, Bool, true, false, ◌&&◌, ◌||◌, Option, none, some, List, [], ◌∷◌, ◌++◌, leb,
  ltb, ◌==◌, if◌then◌else◌, not,
}
use xray_exporter.Text.{Text, codes, text_eq, has_prefix}
use xray_exporter.Snapshot.Types.{Time, Snapshot, WindowPage}
use xray_exporter.Snapshot.TimeText.{TimeText}
use xray_exporter.Snapshot.Normalize.{is_blank}
use xray_exporter.Snapshot.Store.{Store, latest}
use xray_exporter.Snapshot.Window.{window}
use xray_exporter.Snapshot.Service.{second}

-- What the handler reads of a request; a header or a query parameter that is absent is "".
pub record Request : Type 0 where
  pub path : Text
  pub authorization : Text
  pub since : Text
  pub until : Text
  pub limit : Text
  pub cursor : Text

pub data Body : Type 0 where
  message : Text → Body
  snapshot_body : Snapshot → Body
  page_body : WindowPage → Body

pub record Response : Type 0 where
  pub status : ℕ
  pub body : Body

unfoldable pub authorized : Text → Text → Bool
authorized authorization token =
    if is_blank token then false else text_eq authorization (codes "Bearer " ++ token)

is_digit : ℕ → Bool
is_digit c = leb b'0' c && leb c b'9'

digits_from : ℕ → Text → Option ℕ
unfolding is_digit
digits_from n [] = some n
digits_from n (c ∷ s) =
    let rest = digits_from (n * 10 + (c - b'0')) s in if is_digit c then rest else none

-- strconv.Atoi for the only use of it here, which tests for `<= 0` and `> 1000`: an error and a
-- negative number are 0, and a number past the range of `int` stays above 1000.
unsigned : Text → ℕ
unfolding digits_from
unsigned [] = 0
unsigned (c ∷ s) = elim (digits_from 0 (c ∷ s)) [ none ↦ 0 | some n ↦ n ]

unfoldable pub atoi : Text → ℕ
unfolding unsigned
atoi [] = 0
atoi (c ∷ s) = if c == b'+' then unsigned s else if c == b'-' then 0 else unsigned (c ∷ s)

unfoldable pub page_limit : Text → ℕ
unfolding atoi
page_limit text = let n = atoi text in if leb n 0 || ltb 1000 n then 1000 else n

unfoldable pub parse_time : TimeText → Text → Time → Time
parse_time texts [] fallback = fallback
parse_time texts (c ∷ s) fallback = elim (texts.parse (c ∷ s)) [ none ↦ fallback | some t ↦ t ]

-- The zero time stands for a cursor that does not parse.
unfoldable pub cursor_of : TimeText → Text → Option Time
unfolding parse_time
cursor_of texts [] = none
cursor_of texts (c ∷ s) =
    let parsed = parse_time texts (c ∷ s) 0 in if parsed == 0 then none else some parsed

unfoldable pub request_window : TimeText → Time → Store → Request → WindowPage
unfolding page_limit parse_time cursor_of
request_window texts now store r =
    let since = parse_time texts r.since (now - 3600 * second) in
    let until = parse_time texts r.until now in
    window texts.format store since until (page_limit r.limit) (cursor_of texts r.cursor)

abbrev not_found : Response
not_found = record { status = 404; body = message (codes "404 page not found") }

unfoldable pub latest_response : Option Snapshot → Response
latest_response none = record { status = 404; body = message (codes "no snapshot available") }
latest_response (some snapshot) = record { status = 200; body = snapshot_body snapshot }

unfoldable pub handler : TimeText → Time → Store → Text → Request → Response
unfolding authorized request_window latest_response
handler texts now store token r =
    if not (has_prefix (codes "/v1/snapshots/") r.path)
    then not_found
    else if not (authorized r.authorization token)
    then record { status = 401; body = message (codes "unauthorized") }
    else if text_eq r.path (codes "/v1/snapshots/latest")
    then latest_response (latest store)
    else if text_eq r.path (codes "/v1/snapshots/window")
    then record { status = 200; body = page_body (request_window texts now store r) }
    else not_found
