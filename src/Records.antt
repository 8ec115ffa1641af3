-- ===== src/Records.antt =====
-- The durable records of packages/control-node-core/src/catalog.ts and how a replayed or relayed
-- observation is merged into the stored one. Identifiers, opaque texts and JSON values are numbers
-- that stand for their canonical text, which is all that the code compares.
pub mod Authority
mod Timestamp
pub mod Command
pub mod Interaction
pub mod Launch
pub mod Archive
