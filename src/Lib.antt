-- ===== src/Lib.antt =====
-- xray-exporter: a Prometheus exporter for an Xray proxy. It scrapes the traffic statistics of Xray's
-- gRPC API, follows Xray's access log for the activity of users, and serves and pushes snapshots of
-- the traffic of each account for billing.
--
-- The parts, the files that model them, and what stands for what:
--
-- * Snapshot (internal/snapshot): the billing side. `Service.Collect` asks a counter source (the
--   exporter) and an identity source (the accounts service), normalizes the counters into one sample
--   for each account, and saves the snapshot in a `Store` that keeps a window of time in memory and
--   on disk. `Handler` serves the latest snapshot and pages of the store; a `Pusher` posts a snapshot.
--   Types, Normalize, Store, Window, Service, Http, Identities and Push model types.go, service.go,
--   store.go, http.go, identities.go and push.go, one function for each method, with the store (and
--   the files beside it, Disk) passed in and handed back. TimeText and Disk state what is relied on
--   of packages time, encoding/json and os.
-- * LogParser (internal/logparser/parser.go): Follow is `parseLogFile` with its position and the
--   detection of rotation and truncation, Ring is the circular buffer of connection timestamps,
--   Counts are the six maps of counts with the merge of a batch and the trimming to the most frequent,
--   and Metrics puts these together in `NewParser`, `mergeDelta` and `GetMetrics`; Metrics/Run has
--   the sequences of these steps. Line reads one line (`parseLine`, `extractDomainOptimized` and
--   the functions beside them), Batch is `processLine` and a whole pass from the file to the
--   metrics, and Filter (internal/logparser/filter.go) is `NewIPFilter` and `ShouldFilter` with its
--   cache, whose two locked sections are separate steps between which other calls come. Loop is the
--   parser with `NewParser`, `Start`, `Stop` and `parseLoop`: the phases of its goroutine and the
--   events that reach it, with Loop/Growing for a log that is written to meanwhile. Inode is
--   `getInode` (inode_unix.go, inode_windows.go).
-- * Exporter (exporter.go): Retry is `callWithRetry`, Metrics makes metrics of Xray's statistics
--   (`scrapeXrayMetrics`, `TrafficCounters`) and of the log parser's counts (`topN` and the
--   collectors that use it), Collect is the scrape as a whole, with its recovery from panics, with all
--   that it sends if nothing fails (Expected, Complete), Setup the construction of the exporter with its
--   started parser and `Close`, and Followed a scrape after the parser has followed a log.
-- * Main (main.go): the settings of the command line and the environment, and `runSnapshotLoop`,
--   which puts the exporter, the accounts client, the snapshot service and the pusher together.
--   Server has the HTTP routes over a multiplexer, Program is `main` as the list of what it does and
--   how it ends, Served puts the loop, the store, the routes and the snapshot API together, and
--   Delivered says what the loop posts.
-- * GeoIp (internal/geoip/downloader.go): the download of the GeoLite2 databases over a directory whose
--   calls can fail.
-- * Text and GoMap are the functions of package strings, and maps; Common holds what all share:
--   lists measured by native numbers, sorting, the `int64` arithmetic, and the conversion to `float64`.
--
-- Conventions and bounds. A text of the snapshot package is a list of runes and one of the log parser a
-- list of bytes; the literals are ASCII. A time is the number of nanoseconds since the year 1, so that 0
-- is Go's zero time, and clocks are taken to stand later than any duration subtracted from them. A
-- duration that is not positive is 0, where the program only tests for that. An `int64` is its bit
-- pattern below 2 ^ 64, with sums modulo 2 ^ 64 and comparisons through `bias`. A map is an association
-- list, whose order is the order of one iteration. Go's sorts are unstable, so each sort is a
-- parameter of which only the permutation and the order are known (Common.Sort). A mutex makes a
-- method one step. A panic is `none`, as is a nil pointer or interface; a collector that can panic half
-- way gives what it had sent. Calls of the file system, the
-- network and the clock take their outcomes from outside, so a failure can strike at any of them.
-- Loops are structural recursion; fuel have only the client `follow`, whose theorem says how much is
-- enough, and the rounding to a `float64`, whose eleven halvings are enough for 64 bits.
--
-- The value of a metric is the `float64` of an integer, rounded to 53 bits (Common.Float64), or the
-- seconds of a duration, which are not computed. What NewConstMetric accepts is a parameter, as is
-- `utf8.ValidString`.
--
-- The regular expressions of the log parser are written out as the search for their leftmost match.
--
-- Not modelled: `unicode.ToLower` beyond ASCII, the JSON and RFC 3339 syntax, `url.JoinPath`,
-- net.ParseIP, the list of public suffixes, the GeoIP readers, the registry of Prometheus, promhttp and
-- gRPC (parameters, or answers that are not looked into); the periods of the tickers and the sleeps
-- between attempts; the parsing of flags, the listening socket and the timeouts of the HTTP server.
-- `http.ServeMux` is a parameter with the laws of its documentation (Main/Server/Mux). Batch and Loop
-- take the answers of `ShouldFilter` as a function, and Batch/Cached has the same with the cache passed
-- on from call to call.
pub mod Common
pub mod Text
pub mod GoMap
pub mod Snapshot
pub mod LogParser
pub mod Exporter
pub mod GeoIp
pub mod Main
