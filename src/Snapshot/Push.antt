-- ===== src/Snapshot/Push.antt =====
-- internal/snapshot/push.go: the delivery of one snapshot to Vector.
pub mod Delivery
pub mod Posting
use xray_exporter.Common.{
  ℕ, ◌*◌, Bool, true, false, ◌&&◌, ◌||◌, not, Option, none, some, List, [], ◌∷◌, ◌++◌, leb, ltb,
  if◌then◌else◌,
}
use xray_exporter.Text.{Text, codes, trim_space}
use xray_exporter.Snapshot.Types.{Snapshot}
use xray_exporter.Snapshot.Normalize.{is_blank}
use xray_exporter.Snapshot.Service.{second}

-- A timeout that is not positive is 0.
pub record Pusher : Type 0 where
  pub url : Text
  pub token : Text
  pub timeout : ℕ

unfoldable pub new_pusher : Text → Text → ℕ → Pusher
new_pusher url token timeout = record {
  url = trim_space url;
  token = trim_space token;
  timeout = if leb timeout 0 then 10 * second else timeout;
}

unfoldable pub enabled : Option Pusher → Bool
enabled none = false
enabled (some p) = not (is_blank p.url) && not (is_blank p.token)

-- A POST: where to, with which authorization, and the body.
pub record Post : Type 0 where
  pub url : Text
  pub authorization : Text
  pub body : Text

-- encoding/json and net/http: the encoding of a snapshot if it succeeds, whether the request can be
-- built, and the status that a POST is answered with, if any.
pub record VectorNet : Type 0 where
  pub encode : Snapshot → Option Text
  pub request_ok : Text → Bool
  pub post : Post → Option ℕ

pub data PushError : Type 0 where
  encode_snapshot create_request push_snapshot : PushError
  push_status : ℕ → PushError

-- The posts that were sent, and the error.
abbrev pub Pushed : Type 0
Pushed = List Post × Option PushError

answered : Option ℕ → Option PushError
answered none = some push_snapshot
answered (some status) =
    if ltb status 200 || leb 300 status then some (push_status status) else none

post_body : VectorNet → Pusher → Option Text → Pushed
unfolding answered
post_body net p none = ([], some encode_snapshot)
post_body net p (some body) =
    let request : Post = record {
      url = p.url;
      authorization = codes "Bearer " ++ p.token;
      body = body;
    } in
    if net.request_ok p.url
    then (request ∷ [], answered (net.post request))
    else ([], some create_request)

unfoldable pub push : VectorNet → Option Pusher → Snapshot → Pushed
unfolding enabled post_body
push net none value = ([], none)
push net (some p) value =
    if enabled (some p) then post_body net p (net.encode value) else ([], none)
