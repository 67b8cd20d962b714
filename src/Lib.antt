-- ===== src/Lib.antt =====
-- Ichnos, a scanner that fingerprints what answers on the IPv4 internet and publishes what it finds.
--
-- A cron job runs `scan` (discovery of new hosts) and `refresh` (known hosts again) for each protocol.
-- Both record grabs into a `ScanRunOutcome`, whose rows are appended to pending NDJSON files. An hourly
-- `publish` commits the pending files, dataset by dataset, and removes each as it lands. A nightly
-- `responsive-refresh` derives from the published observations the list of known hosts, which `refresh`
-- walks from the top and rotates. Whether a fingerprint is new is asked of the version index with a
-- conditional write. The block list is rebuilt before each run; discovery leaves it to ZMap, and a deliberate
-- scan and `refresh` check each address.
--
-- Which file models which part:
--   Base, Json: the texts, dictionaries, exceptions, `sorted`, and `json.dumps` that the program uses. A
--     text is a list of code points; an exception is a value of `Raises`.
--   Models: src/ichnos/models.py. Storage, Storage/Memory: src/ichnos/storage/base.py (the version index as
--     an interface with its documented laws) and memory.py, which fills it; Storage/Dynamo is the version
--     index of dynamodb.py, Storage/Claims many workers' claims on it.
--   Odata: src/ichnos/odata.py. Webapp: the opt-out handler of src/ichnos/webapp/app.py.
--   Blocklist: src/ichnos/blocklist.py; Blocklist/Collapse is what it and jurisdiction.py use of the standard
--     library's `ipaddress`, Blocklist/Layers is `build_blocklist`. The texts of IPv6 addresses are parameters.
--   Jurisdiction: src/ichnos/jurisdiction.py.
--   Fingerprint: src/ichnos/fingerprint.py.
--   Scanner: src/ichnos/scanner.py. `record_grab_result` is `_record_grab_result` on the objects that it
--     mutates (the record `World`). Scanner/Stream is `_StreamingGrabber` with
--     `_stream_discover_and_grab`: a run is the list of the lines that its two threads handle, in the order
--     in which the lock lets them. Scanner/Scan is `run_scan`, Scanner/Refresh is `run_refresh_scan`.
--   Publish: the batch and the rows of src/ichnos/publish.py; Publish/Pending the pending files;
--     Publish/Hour is `publish_hour` with the `on_commit` that src/ichnos/cli.py passes.
--   Responsive: src/ichnos/responsive.py, Responsive/Derivation its queries. RateLimit: the token bucket of
--     src/ichnos/ratelimit.py.
--   Cli: `cmd_publish`, `cmd_responsive_refresh` and `_write_pending_outcome` of src/ichnos/cli.py;
--     Cli/Scanning is `_rebuild_blocklist`, `cmd_scan` and `cmd_refresh`, with `download_file` of
--     src/ichnos/s3sync.py; Cli/JurisdictionList is `cmd_jurisdiction_refresh`.
--
-- What comes from outside is a parameter: the clock, SHA-256, `json.loads`, the output and the exit
-- code of ZMap and ZGrab2, the converter and the upload service, HTTP requests, S3, DynamoDB's conditional
-- write. The normalizer is a parameter too.
--
-- Fuel and bounds: the loop that splits a range of addresses into networks has one round for each address of
-- the range, and each round covers one address at least; the loop that merges networks has two for each network
-- given, and each round takes a network off the stack or one out of the dictionary. `iter_rows` has as many
-- rounds as the feed has pages, and one where it reads a single page. A token bucket counts in whole ticks of
-- the clock, where the source has a float. Numbers are unbounded, as Python's. A text is compared by code points.
--
-- Not modelled: processes (spawning, signals, timeouts), logging, the pages of the web application, the
-- exclusions and the schedule in DynamoDB, Parquet, the normalizers, reading the environment. Writing and
-- removing a local file always succeeds here; an `OSError` of the disk is not modelled. `wait` of
-- src/ichnos/ratelimit.py is not, since how often it sleeps depends on the rounding of floats.
pub mod Base
pub mod Json
pub mod Models
pub mod Storage
pub mod Blocklist
pub mod Fingerprint
pub mod Scanner
pub mod Publish
pub mod RateLimit
pub mod Responsive
pub mod Cli
pub mod Jurisdiction
pub mod Odata
pub mod Webapp
