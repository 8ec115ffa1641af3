-- ===== src/Client.antt =====
-- packages/client: the cursors that its subscriptions keep.
pub mod Cursor
mod Examples
pub mod Watch
