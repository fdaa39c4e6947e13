-- ===== src/Lib.antt =====
-- Hootifactory, a package registry: the decisions on who may do what, the content-addressed store
-- with its quotas and uploads, and the scan pipeline that gates what is served.
--
-- Auth: packages/auth/src. Auth/Permission holds the permission keys of
-- packages/types/src/index.ts, Auth/Permission/Implication the search `permissionImplies`,
-- Auth/Permission/Required `permissionForAction`. Auth/Scope is scope.ts. Auth/Principal has the
-- identities, resources and grant rows; Auth/Grants is the scope test of permission-grants.ts;
-- Auth/Can is can.ts and Auth/Authorize is authorize.ts over the tables of grants and memberships,
-- with Auth/Authorize/Queries and Auth/Authorize/Groups on the rows that its queries select.
-- An absent, null or undefined field is `none`; `truthy` is a text that is tested as a condition.
-- Auth/Throttle is throttle.ts, over the hash of a bucket as a parameter.
--
-- Content: packages/registry-platform/src. Content/State holds the rows (`blobs`, `blob_refs`,
-- `quotas`) and the objects of the blob store; Content/Quota is governance/quota.ts; Content/Blobs
-- is content/blobs.ts, with the trigger of packages/db/migrations on the delete of a reference. A
-- transaction on a digest holds its lock, so each is one function on the store, and an error rolls
-- back. Content/Lifecycle has the transactions as steps in any order, Content/Usage what an
-- organisation's references add up to, and Content/Accounting the charges and refunds against it.
-- Content/Uploads is content/upload-sessions.ts and the handlers of
-- packages/registry-oci/src/oci-uploads.ts: each of the two transactions of a chunk or of a commit
-- is a function, and what happens between them is any sequence of steps. The rows that the sum of
-- the staging budget reads are those of its time if the organisation has a quota row, whose lock
-- it takes, and an argument else.
--
-- Scan: packages/scan-core/src and apps/scan-worker/src. Scan/Finding has severities, findings and
-- their keys; Scan/Policy is `evaluateScanPolicy`; Scan/Gating is scan-gating.ts; Scan/Outbox is
-- the table `scan_outbox` with the writes of worker-loop.ts and of
-- packages/registry-platform/src/runtime/scan-outbox.ts.
--
-- Packages: packages/registry-platform/src/packages/versions.ts, with the deletion by digest of
-- content/manifest-store.ts. Packages has the rows and the transactions; Packages/Artifacts counts
-- live versions, Packages/Counter reads the artifact counter of a quota row, Packages/Bookings
-- relates the two across each transaction, Packages/Publishing has the transactions in any order,
-- in which the row that an upsert reads before it locks the quota may be out of date at its write,
-- and Packages/Lookup what is found behind a write. Packages/Replace is
-- `upsertPackageVersionWithBlobRef` on both stores, with Packages/Replace/Exact on its
-- transaction, Packages/Replace/Outcomes on the whole and Packages/Replace/Counting on the
-- artifact counter. Packages/Immutable is `publishImmutableVersionBlob` of
-- packages/registry/src/plugin/helpers.ts.
--
-- Routing: Routing is `resolveRepository` of packages/registry-platform/src/routing, with
-- Routing/Paths on segments and Routing/Longest on the choice. Routing/Match is
-- packages/registry/src/routing/route-matcher.ts and `resolveRegistryRouteMatch`; the engine of
-- regular expressions and `decodeURIComponent` are parameters. Routing/Members is
-- repositories/virtual.ts.
--
-- ArchVersion: packages/registry-arch/src/arch-vercmp.ts; ArchVersion/Blocks relates its loop to
-- lists of blocks, ArchVersion/Runs and ArchVersion/Order show what order it is.
-- `Number.parseInt` is a parameter.
--
-- Runtime: packages/core/src/runtime.ts. Runtime/Lru is `BoundedLruCache`, its map a list in the
-- order of insertion; Runtime/TtlCache is `createTtlPromiseCache`, Runtime/MapBounded
-- `mapWithBoundedConcurrency`, Runtime/InFlight is `InFlightDeduper` and Runtime/Limiter
-- `createAsyncLimiter`, in which what is awaited is kept beside the state of the code.
--
-- Bounds: digests are numbers, and Content/Usage sums over those below a bound, which is a
-- parameter. `permissionImplies` recurses on fuel 39, one more than the number of keys, since each
-- call adds a key to its visited set. The loop over two versions recurses on fuel, the length of
-- the first, since each time takes a character of it. All other loops are structural. CVSS scores
-- stand in tenths, times in milliseconds.
--
-- Not modelled: HTTP, streams and presentation; the format adapters of the package managers but
-- for the uploads and the version order above; external scanners, the object store and the
-- database engine; accounts, OIDC and email; retention and the dispatch of requests over virtual
-- members; telemetry and logging; the web client.
--
-- The tests stand in Tests.
mod Prelude
pub mod Auth
pub mod Content
pub mod Scan
pub mod Runtime
pub mod Packages
pub mod Routing
pub mod ArchVersion
mod Tests
