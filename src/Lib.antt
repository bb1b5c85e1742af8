-- ===== src/Lib.antt =====
-- riley-leaderboards: a service that keeps ranked lists ("boards") with immutable, numbered
-- versions in Postgres.
--
-- A board is ordered, scored or tiered. It has entries, and versions, each of which places
-- entries by position, score or tier. An accumulative board collects submitted scores instead,
-- and a snapshot turns them into a version. References say where a board or a version is used,
-- and collections group boards. A realtime board keeps its standings in Redis. Boards may also be
-- described by files, which are synchronised when GitHub reports a push. The HTTP routes, the
-- command line and the sync of files all go through the repositories of
-- crates/riley-leaderboards-core/src/repo.
--
-- The parts:
--   * Prelude: shared names and lemmas on lists, numbers and texts. `i32` is ℤ with its range
--     (`as_i32` wraps), an `f64` is its 64-bit pattern, `str` lengths are bytes of the UTF-8, and
--     Prelude.Rank sorts rows by a Boolean order (ORDER BY).
--   * Models: crates/riley-leaderboards-core/src/models.rs and error.rs. The records keep their
--     fields; `Message` has one constructor for each text that the code formats. Models.Pagination
--     is `PaginationParams`, `encode_cursor` and the body that the five `list_paginated` share.
--   * Db: the tables of crates/riley-leaderboards-core/migrations as lists of rows.
--   * Repo: repo/mod.rs (`validate_slug`, `validate_name`, `scores_equal`).
--   * Repo.Boards: repo/boards.rs (`create`, `list`, `list_paginated`, `get_by_slug`,
--     `get_by_id`, `get_summary`, `update`, `delete`, and the checks, in Repo.Boards.Tiers that of
--     `tier_config`).
--   * Repo.Versions: repo/versions.rs (`create`, `list`, `list_paginated`, `get_by_number`,
--     `get_latest`, `since`), with Validate for `validate_placements`, Placements for
--     `fetch_placements` and the INSERT loop, Positions for `derive_scored_positions`, Diff for
--     `diff`.
--   * Repo.Entries, Repo.Scores, Repo.References, Repo.Collections: repo/entries.rs,
--     repo/scores.rs, repo/references.rs, repo/collections.rs, function by function.
--   * Repo.Export: repo/export.rs (`export_board`; the map from versions to their placements is a
--     list of keyed rows).
--   * Repo.Realtime: repo/realtime.rs (`submit`, `latest`, `clear`; Snapshot is `snapshot`, in the
--     parts `isolate`, up to the renaming of the keys, and `store`). Server is what the code asks
--     of Redis, and Isolation lets other clients submit between the two parts.
--   * Sync: crates/riley-leaderboards-core/src/sync/execute.rs (`placements_changed`; Execute is
--     `sync_board` and `sync_dir`, Changes what they write), with Parse for sync/parse.rs.
--   * Auth: crates/riley-leaderboards-api/src/auth.rs (`require_auth`, `has_write_auth`,
--     `validate_jwt`; Startup is `from_config`, Keys the keys of an issuer and their refresh).
--   * Incoming: crates/riley-leaderboards-api/src/routes/webhooks.rs (`github`, `run_sync`,
--     `verify_signature`).
--   * Webhooks: crates/riley-leaderboards-api/src/outbound_webhooks.rs (`glob_match`,
--     `matches_board_filter`, the selection of `fire`, the loop of `deliver`), with `WebhookEvent` and
--     `WebhookConfig` of crates/riley-leaderboards-core/src/config.rs.
--   * Tests: concrete tables on which the definitions run.
--
-- State: an operation takes the tables (`Db`) and returns an error, or its answer with the new
-- tables. The code runs each operation in one transaction, and locks the rows that it depends on,
-- so an operation is one step and a failed one leaves the tables alone. Keys (`uuidv7()`) and
-- times (`now()`) are arguments; that keys are new is a hypothesis where a theorem needs it. A
-- SELECT that needs one row takes the first one that matches; rows that an ORDER BY leaves tied
-- keep the order of the insertion sort, and no theorem rests on that order.
--
-- Repo.Realtime and Sync are sequences of such operations that are not undone when a later one
-- fails: there a step (Models.Steps) gives the state that it reached beside its result.
--
-- Parameters: `Json` stands for serde_json's values and accessors, `Sql` for the collation of
-- names and the lookup of a tier in jsonb, which Postgres may refuse, so that reading placements
-- fails; `CursorText` for the texts of chrono's times and of uuids. What is assumed of printed cursors is `IsFaithful`. In Webhooks, the replies to requests
-- and the resolution of secrets are functions that the definitions take; the payload, its
-- signature and the spawning of tasks are left out. `Redis` has the commands and `RedisLaws` what
-- they do to sorted sets and hashes; `Tokens` is HMAC, the decoding of JWTs and of their keys;
-- `JsonValues` makes the JSON of a synchronised board; `Decoders`, git and the files of a directory
-- are what their libraries and commands answer.
--
-- No definition of the code has fuel: the loops are structural recursion on lists. `follow`, a
-- client that reads page after page, takes the number of requests that it may send; as many as
-- there are rows are enough.
--
-- Not modelled: the import of repo/export.rs, db.rs, the rest of config.rs, of
-- crates/riley-leaderboards-api (routes, event streams) and crates/riley-leaderboards-cli. They read
-- files and HTTP requests, and call the repositories. A timeout, a lost connection to Postgres and
-- the logging have no part in the model.
pub mod Prelude
pub mod Models
pub mod Db
pub mod Repo
pub mod Webhooks
pub mod Auth
pub mod Sync
pub mod Incoming
pub mod Tests
