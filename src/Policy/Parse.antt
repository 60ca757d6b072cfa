-- ===== src/Policy/Parse.antt =====
-- The validation of decoded policy documents in src/paybond_kit/policy/schema.py, part by part.
pub mod Format
pub mod Expect
pub mod Tool
pub mod Intent
pub mod Document
