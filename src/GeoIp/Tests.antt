-- ===== src/GeoIp/Tests.antt =====
-- Runs of the downloader.
use xray_exporter.Common.{ℕ, zero, suc, ◌-◌, ◌≡◌, refl, true, false, none, some, [], ◌∷◌}
use xray_exporter.Text.{codes, text_eq}
use xray_exporter.GoMap.{lookup, insert}
use xray_exporter.GeoIp.{
  DbFile, Dir, Attempt, copy_body, Database, download_file, download_db, db_max_age,
}
use xray_exporter.GeoIp.Intact.{Kept, download_db-Kept}

abbrev old_file : DbFile
old_file = record { mod_time = 0; size = 3; content = codes "old" }

abbrev new_file : DbFile
new_file = record { mod_time = 900; size = 3; content = codes "new" }

abbrev served : Attempt
served = record {
  request_ok = true;
  status = some 200;
  create_ok = true;
  copy_ok = true;
  close_ok = true;
  rename_ok = true;
  remove_ok = true;
  partial = [];
  body = new_file;
}

-- The copy ends half way.
abbrev cut_off : Attempt
cut_off = record served { copy_ok = false; partial = codes "ne" }

abbrev dir : Dir
dir = record { files = (codes "asn", old_file) ∷ []; temp = none }

cut_off_run : download_file cut_off (codes "asn") dir ≡ (dir, some copy_body)
unfolding download_file
cut_off_run = refl

-- The ASN database is fresh; the other two are downloaded, the city's at the second attempt.
abbrev asn : Database
asn = record { path = codes "asn"; attempts = λ i. served; now = db_max_age - 1 }

abbrev country : Database
country = record { path = codes "country"; attempts = λ i. served; now = 0 }

second_time : ℕ → Attempt
second_time zero = cut_off
second_time (suc i) = served

abbrev city : Database
city = record { path = codes "city"; attempts = second_time; now = 0 }

download_db_run : download_db true asn country city dir ≡ (
  record {
    files = (codes "asn", old_file) ∷ (codes "country", new_file) ∷ (codes "city", new_file) ∷ [];
    temp = none;
  },
  none,
)
unfolding download_db second_time lookup insert text_eq
download_db_run = refl

download_db-Kept_example :
    Kept (asn ∷ country ∷ city ∷ []) dir (download_db true asn country city dir).0 (codes "city")
download_db-Kept_example = download_db-Kept true asn country city dir (codes "city")
