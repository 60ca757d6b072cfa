-- ===== src/Transparency.antt =====
-- src/paybond_kit/agent_receipt_inclusion.py: Merkle inclusion proofs of agent receipts.
pub mod Bytes
pub mod Hex
pub mod Power
pub mod Proof
pub mod Root
pub mod Samples
pub mod Tree
