-- ===== src/Scan.antt =====
-- The scan pipeline's decisions: findings and severities, the policy on them, the coverage of the
-- gating types, and the outbox of scan requests.
pub mod Finding
pub mod Policy
pub mod Gating
pub mod Outbox
