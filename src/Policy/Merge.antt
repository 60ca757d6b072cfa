-- ===== src/Policy/Merge.antt =====
-- src/paybond_kit/policy/merge.py: the merge of an org base policy with a tenant overlay.
pub mod Report
pub mod Tools
pub mod Intent
pub mod Sections
pub mod Adapter
pub mod Engine
