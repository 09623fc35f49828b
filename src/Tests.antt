-- ===== src/Tests.antt =====
-- The properties at concrete inputs.
mod Books
mod Feeds
mod Tools
mod Queues
mod Histories
mod Rebuilds
