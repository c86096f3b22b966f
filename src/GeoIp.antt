-- ===== src/GeoIp.antt =====
-- internal/geoip/downloader.go: the download of the GeoLite2 databases.
pub mod Intact
mod Tests
use xray_exporter.Common.{
  ℕ, zero, suc, ◌+◌, ◌-◌, ◌*◌, Bool, true, false, ◌&&◌, not, Option, none, some, List, [], ◌∷◌, ltb,
  ◌==◌, if◌then◌else◌,
}
use xray_exporter.Text.{Text, codes}
use xray_exporter.GoMap.{GoMap, lookup, insert}

-- A file of the directory: when it was modified, in nanoseconds, its size and its content.
pub record DbFile : Type 0 where
  pub mod_time : ℕ
  pub size : ℕ
  pub content : Text

-- The databases at their paths, and the temporary file of a download.
pub record Dir : Type 0 where
  pub files : GoMap DbFile
  pub temp : Option Text

-- The outcomes of one attempt: whether the request can be built, the status of the answer if there is
-- one, whether each call on the temporary file succeeds, what `io.Copy` wrote before it ended, and
-- the file that a rename puts at the path.
pub record Attempt : Type 0 where
  pub request_ok : Bool
  pub status : Option ℕ
  pub create_ok : Bool
  pub copy_ok : Bool
  pub close_ok : Bool
  pub rename_ok : Bool
  pub remove_ok : Bool
  pub partial : Text
  pub body : DbFile

pub data DownloadError : Type 0 where
  create_directory create_request no_answer create_temp copy_body close_temp rename_temp :
      DownloadError
  bad_status : ℕ → DownloadError

abbrev pub Downloaded : Type 0
Downloaded = Dir × Option DownloadError

-- the deferred `os.Remove`
removed : Attempt → Dir → Dir
removed a dir = if a.remove_ok then record dir { temp = none } else dir

-- From the temporary file on.
store_body : Attempt → Text → Dir → Downloaded
unfolding removed
store_body a path dir =
    let torn = record dir { temp = some a.partial } in
    let filled = record dir { temp = some a.body.content } in
    if not a.create_ok
    then (dir, some create_temp)
    else if not a.copy_ok
    then (removed a torn, some copy_body)
    else if not a.close_ok
    then (removed a filled, some close_temp)
    else if not a.rename_ok
    then (removed a filled, some rename_temp)
    else (record { files = insert path a.body dir.files; temp = none }, none)

answered_with : Attempt → Text → Dir → Option ℕ → Downloaded
unfolding store_body
answered_with a path dir none = (dir, some no_answer)
answered_with a path dir (some status) =
    if status == 200 then store_body a path dir else (dir, some (bad_status status))

unfoldable pub download_file : Attempt → Text → Dir → Downloaded
unfolding answered_with
download_file a path dir =
    if a.request_ok then answered_with a path dir a.status else (dir, some create_request)

-- The loop of `downloadWithRetry` with `left` attempts to go and the last error; attempt `i` finds the
-- outcomes `attempts i`.
retry_from : (ℕ → Attempt) → Text → ℕ → ℕ → Dir → Option DownloadError → Downloaded
unfolding download_file
retry_from attempts path i zero dir last = (dir, last)
retry_from attempts path i (suc left) dir last =
    let (dir', e) = download_file (attempts i) path dir in
    let rest = retry_from attempts path (suc i) left dir' e in
    elim e [ none ↦ (dir', none) | some x ↦ rest ]

unfoldable pub download_with_retry : (ℕ → Attempt) → Text → Dir → Downloaded
unfolding retry_from
download_with_retry attempts path dir = retry_from attempts path 0 3 dir none

-- dbMaxAge: seven days in nanoseconds
abbrev pub db_max_age : ℕ
db_max_age = 7 * 24 * 3600 * 1_000_000_000

unfoldable pub is_fresh : ℕ → Option DbFile → Bool
is_fresh now none = false
is_fresh now (some file) = ltb 0 file.size && ltb (now - file.mod_time) db_max_age

-- A database: its path, the outcomes of the attempts to download it, and the time of the test.
pub record Database : Type 0 where
  pub path : Text
  pub attempts : ℕ → Attempt
  pub now : ℕ

-- the loop of `DownloadDB`
unfoldable pub download_all : List Database → Dir → Downloaded
unfolding is_fresh download_with_retry
download_all [] dir = (dir, none)
download_all (db ∷ dbs) dir =
    let skipped = download_all dbs dir in
    let (dir', e) = download_with_retry db.attempts db.path dir in
    let rest = download_all dbs dir' in
    if is_fresh db.now (lookup db.path dir.files)
    then skipped
    else elim e [ none ↦ rest | some x ↦ (dir', some x) ]

-- DownloadDB, for the databases ASN, Country and City.
unfoldable pub download_db : Bool → Database → Database → Database → Dir → Downloaded
unfolding download_all
download_db mkdir_ok asn country city dir =
    if mkdir_ok then download_all (asn ∷ country ∷ city ∷ []) dir else (dir, some create_directory)

-- The paths in the directory `Dir`, with filepath.Join.
abbrev pub asn_path : (Text → Text → Text) → Text → Text
asn_path join dir = join dir (codes "GeoLite2-ASN.mmdb")

abbrev pub city_path : (Text → Text → Text) → Text → Text
city_path join dir = join dir (codes "GeoLite2-City.mmdb")

abbrev pub country_path : (Text → Text → Text) → Text → Text
country_path join dir = join dir (codes "GeoLite2-Country.mmdb")

-- What the downloads of the three databases meet, at the paths in a directory.
abbrev pub database_at : Text → (ℕ → Attempt) → ℕ → Database
database_at path attempts now = record { path = path; attempts = attempts; now = now }

-- DownloadDB with `Dir`; a database meets its attempts and the time of its test.
unfoldable pub download_in :
    (Text → Text → Text)
    → Text
    → Bool
    → (ℕ → Attempt) × ℕ
    → (ℕ → Attempt) × ℕ
    → (ℕ → Attempt) × ℕ
    → Dir
    → Downloaded
unfolding download_db
download_in join dir mkdir_ok asn country city =
    download_db mkdir_ok (database_at (asn_path join dir) asn.0 asn.1)
      (database_at (country_path join dir) country.0 country.1)
      (database_at (city_path join dir) city.0 city.1)
