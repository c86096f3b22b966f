-- ===== src/GeoIp/Intact.antt =====
-- A download never corrupts a database.
use xray_exporter.Common.{
  ℕ, zero, suc, ◌≡◌, ◌≢◌, ◌⊎◌, inl, inr, refl, sym, ap, ◌∙◌, Bool, true, false, Option, none, some,
  List, [], ◌∷◌, arith, Bool-cases, Option-cases, if◌then◌else◌,
}
use mathlib.Core.Option.{none-ne-some, some-ne-none}
use mathlib.Core.List.{Mem, mem-cons_self, mem-cons_of_mem}
use xray_exporter.Text.{Text, text_eq}
use xray_exporter.GoMap.{lookup, insert, lookup-insert, text_eq_iff}
use xray_exporter.GeoIp.{
  Dir, Attempt, DownloadError, Database, download_file, retry_from, download_with_retry, is_fresh,
  download_all, download_db,
}

-- The server answered 200 and the whole body was copied.
abbrev pub IsServed : Attempt → Type 0
IsServed a = (a.status ≡ some 200) × (a.copy_ok ≡ true)

-- An attempt without an error puts the body that was served whole at the path and leaves no temporary
-- file; one with an error leaves every database as it was.
pub download_file-IsServed :
    (a : Attempt) (path : Text) (dir : Dir)
    → ((download_file a path dir).1 ≡ none
        → ((download_file a path dir).0
            ≡ record { files = insert path a.body dir.files; temp = none })
          × IsServed a)
      × ((e : DownloadError)
          → (download_file a path dir).1 ≡ some e
          → (download_file a path dir).0.files ≡ dir.files)
unfolding download_file
download_file-IsServed a path dir = (ground arith, λ e. ground arith)

-- One of the attempts from `i` on was served, and its body stands at the path.
abbrev Stored : (ℕ → Attempt) → Text → Dir → Dir → Type 0
Stored attempts path dir dir' =
    (k : ℕ) × IsServed (attempts k) × (dir'.files ≡ insert path (attempts k).body dir.files)

retry_from-Stored :
    (attempts : ℕ → Attempt) (path : Text) (i left : ℕ) (dir : Dir) (last : Option DownloadError)
    → (left ≡ 0 → last ≢ none)
    → ((retry_from attempts path i left dir last).1 ≡ none
        → Stored attempts path dir (retry_from attempts path i left dir last).0)
      × ((e : DownloadError)
          → (retry_from attempts path i left dir last).1 ≡ some e
          → (retry_from attempts path i left dir last).0.files ≡ dir.files)
unfolding retry_from
retry_from-Stored attempts path i zero dir last h = (λ n. absurd (h refl n), λ e q. refl)
retry_from-Stored attempts path i (suc left) dir last h =
    let file = download_file-IsServed (attempts i) path dir in
    elim (Option-cases (download_file (attempts i) path dir).1) [
      | inl n ↦
          rw (retry_from, n)
            (
              λ q. let (f, s) = file.0 n in (i, s, ap (λ d. d.files) f),
              λ e q. absurd (none-ne-some e q),
            )
      | inr (x, n) ↦
          let dir' = (download_file (attempts i) path dir).0 in
          let ih =
            retry_from-Stored attempts path (suc i) left dir'
              (download_file (attempts i) path dir).1 (λ z q. some-ne-none x (sym n ∙ q)) in
          let same = file.1 x n in
          rw (retry_from, n)
            (
              λ q. let (k, s, f) = ih.0 q in (k, s, f ∙ ap (insert path (attempts k).body) same),
              λ e q. ih.1 e q ∙ same,
            )
    ]

-- The file at a path is the one that was there, or the body of an attempt for that path which was
-- served.
abbrev pub Kept : List Database → Dir → Dir → Text → Type 0
Kept dbs dir dir' k =
    (lookup k dir'.files ≡ lookup k dir.files)
    ⊎ ((db : Database) × Mem db dbs
        × (db.path ≡ k)
        × ((i : ℕ) × IsServed (db.attempts i) × (lookup k dir'.files ≡ some (db.attempts i).body)))

Kept-later :
    (db : Database) (dbs : List Database) (dir dir' : Dir) (k : Text)
    → Kept dbs dir dir' k
    → Kept (db ∷ dbs) dir dir' k
Kept-later db dbs dir dir' k (inl e) = inl e
Kept-later db dbs dir dir' k (inr (d, m, p, r)) = inr (d, mem-cons_of_mem db m, p, r)

Kept-Stored :
    (db : Database) (dbs : List Database) (dir mid end : Dir) (k : Text)
    → Stored db.attempts db.path dir mid
    → Kept dbs mid end k
    → Kept (db ∷ dbs) dir end k
Kept-Stored db dbs dir mid end k (i, s, f) (inr r) = Kept-later db dbs dir end k (inr r)
Kept-Stored db dbs dir mid end k (i, s, f) (inl e) =
    let there : lookup k mid.files
        ≡ (if text_eq db.path k then some (db.attempts i).body else lookup k dir.files) =
      ap (lookup k) f ∙ lookup-insert db.path k (db.attempts i).body dir.files in
    elim (Bool-cases (text_eq db.path k)) [
      | inl p ↦
          inr (db, mem-cons_self, (text_eq_iff db.path k).0 p, (i, s, e ∙ there ∙ (rw p refl)))
      | inr p ↦ inl (e ∙ there ∙ (rw p refl))
    ]

download_all-Kept :
    (dbs : List Database) (dir : Dir) (k : Text) → Kept dbs dir (download_all dbs dir).0 k
unfolding download_all download_with_retry
download_all-Kept [] dir k = inl refl
download_all-Kept (db ∷ dbs) dir k =
    let tried = retry_from-Stored db.attempts db.path 0 3 dir none (λ z. absurd (omega arith)) in
    let mid = (download_with_retry db.attempts db.path dir).0 in
    elim (Bool-cases (is_fresh db.now (lookup db.path dir.files))) [
      | inl fresh ↦
          rw (download_all, fresh)
            (Kept-later db dbs dir (download_all dbs dir).0 k (download_all-Kept dbs dir k))
      | inr old ↦ elim (Option-cases (download_with_retry db.attempts db.path dir).1) [
        | inl n ↦
            rw (download_all, old, n)
              (Kept-Stored db dbs dir mid (download_all dbs mid).0 k (tried.0 n)
                (download_all-Kept dbs mid k))
        | inr (x, n) ↦ rw (download_all, old, n) (inl (ap (lookup k) (tried.1 x n)))
      ]
    ]

-- Whatever fails on the way, after `DownloadDB` the file at every path is the one that was there
-- before, or the whole body of an attempt that was answered with status 200 for that path.
pub download_db-Kept :
    (mkdir_ok : Bool) (asn country city : Database) (dir : Dir) (k : Text)
    → Kept (asn ∷ country ∷ city ∷ []) dir (download_db mkdir_ok asn country city dir).0 k
unfolding download_db
download_db-Kept true asn country city dir k = download_all-Kept (asn ∷ country ∷ city ∷ []) dir k
download_db-Kept false asn country city dir k = inl refl
