-- ===== src/Catalog.antt =====
-- The control node's durable catalog, packages/control-node-core/src/catalog.ts, in parts: its
-- journal of control events, the role of the node in the control tree, and metadata operations.
pub mod Feed
pub mod Roles
