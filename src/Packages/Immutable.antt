-- ===== src/Packages/Immutable.antt =====
-- `publishImmutableVersionBlob` of packages/registry/src/plugin/helpers.ts: the blob is stored with
-- its reference, and then the version is made or the blob released. The package is given; the
-- module's own test for a conflict, before the store, is left out.
pub mod Conflicts
use hootifactory.Prelude.{ℕ, Bool, [], Option}
use hootifactory.Content.State.{RepoContext, Result, ok, err}
use hootifactory.Content.Blobs.{BlobPut, RefInput, commit_or_discard}
use hootifactory.Packages.{Registry, VersionInput, Committed, commit_version_or_release_blob}

module _ (org_of : ℕ → ℕ) where
  unfoldable pub publish_immutable_version_blob :
      ℕ
      → ℕ
      → Bool
      → Bool
      → RepoContext
      → BlobPut
      → RefInput
      → VersionInput
      → Registry
      → Result Committed × Registry
  publish_immutable_version_blob now grace completes scanner_enabled ctx put ref version s =
      let stored = commit_or_discard org_of s.store ctx put ref in
      let s₁ : Registry = record s { store = stored.1 } in
      elim stored.0 [
        | err e ↦ (err e, s₁)
        | ok blob ↦
            elim (commit_version_or_release_blob org_of now grace completes scanner_enabled [] ctx
              blob ref version s₁) [ err e ↦ (err e, s₁) | ok (committed, t) ↦ (ok committed, t) ]
      ]
