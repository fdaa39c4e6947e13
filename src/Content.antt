-- ===== src/Content.antt =====
-- packages/registry-platform/src/content and governance/quota.ts: content-addressed blobs, their
-- references, storage quotas and garbage collection.
pub mod State
pub mod Quota
pub mod Blobs
pub mod Refs
pub mod Counts
pub mod Lifecycle
pub mod Usage
pub mod Accounting
pub mod Uploads
