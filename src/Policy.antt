-- ===== src/Policy.antt =====
-- The policy engine: documents, and the merge of an org base with a tenant overlay.
pub mod Value
pub mod Schema
pub mod Serialize
pub mod Checked
pub mod Parse
pub mod Merge
