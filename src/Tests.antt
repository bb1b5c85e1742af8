-- ===== src/Tests.antt =====
-- Concrete boards, versions and documents on which the definitions are run.
mod Base
mod Boards
mod Versions
mod Differences
mod Entries
mod Scores
mod Pages
mod References
mod Webhooks
mod Auth
mod Redis
mod Realtime
mod Export
mod Sync
mod Unchanged
mod Incoming
