-- ===== src/Packages/Replace.antt =====
-- `upsertPackageVersionWithBlobRef` of packages/registry-platform/src/packages/versions.ts: a
-- version whose blob takes the place of an older one. The upload of the blob comes before.
pub mod Exact
pub mod Outcomes
pub mod Counting
use hootifactory.Prelude.{
  ℕ, ◌+◌, ◌-◌, Bool, true, false, not, ◌&&◌, List, [], ◌∷◌, Option, none, some, ◌==◌, nat_eq,
  if◌then◌else◌, ltb, leb, keep, find_first,
}
use hootifactory.Content.State.{
  Store, BlobRef, RepoContext, Error, blob_unknown, Result, ok, err, ◌>>=◌, ◌>>◌, same_ref,
}
use hootifactory.Content.Quota.{
  assert_storage_quota_row_allows, assert_artifact_quota_row_allows, Delta, plus, minus,
  adjust_storage_used, org_already_references_digest,
}
use hootifactory.Content.Blobs.{
  BlobPut, StoredBlob, RefInput, ref_row, ensure_active_blob, insert_counted, stored_blob,
  delete_blob_refs, reclaim_unreferenced, discard_uncommitted,
}
use hootifactory.Packages.{
  Registry, VersionInput, is_version, write_version, charges_artifact, charge_artifact,
  record_scans,
}

-- `previousDigestInput`
abbrev pub previous_input : Option ℕ → ℕ → Option ℕ
previous_input none digest = none
previous_input (some previous) digest = if previous == digest then none else some previous

-- A charge less a refund, and the check of what is left of the charge.
abbrev pub net_delta : ℕ → ℕ → Delta
net_delta charge refund =
    if leb refund charge then plus (charge - refund) else minus (refund - charge)

-- The digest whose object may be reclaimed behind the commit, the blob, the version and what is left.
pub record Replaced : Type 0 where
  pub delete_cas : Option ℕ
  pub stored : StoredBlob
  pub version_id : ℕ
  pub registry : Registry

-- What the transaction returns and leaves, from its part on the content store.
abbrev pub replaced :
    Bool
    → RepoContext
    → BlobPut
    → Option ℕ
    → VersionInput
    → Registry
    → StoredBlob × Store
    → Replaced
replaced scanned ctx put previous version s content =
    let written = write_version ctx.org_id version s.versions in
    record {
      delete_cas = previous;
      stored = content.0;
      version_id = written.0;
      registry = record s {
        versions = written.1;
        store =
            charge_artifact ctx.org_id
              (charges_artifact (find_first (is_version version) s.versions)) content.1;
        scans = if scanned then record_scans (put.digest ∷ []) s.scans else s.scans;
      };
    }

module _ (org_of : ℕ → ℕ) where
  -- The references to the previous digest go: the bytes to refund, and what is left.
  unfoldable pub drop_previous : ℕ → RepoContext → RefInput → Option ℕ → Store → ℕ × Store
  drop_previous now ctx input none s = (0, s)
  drop_previous now ctx input (some previous) s =
      let p = same_ref (ref_row ctx previous input) in
      let s₁ = delete_blob_refs now p s in
      (
        elim (s.blobs previous) [
          | none ↦ 0
          | some b ↦ elim (keep p s.blob_refs) [
            | [] ↦ 0
            | _ ∷ _ ↦
                if org_already_references_digest org_of s₁.blob_refs ctx.org_id previous
                then 0
                else b.size_bytes
          ]
        ],
        s₁,
      )

  -- What the organisation is charged for the new reference.
  abbrev pub charge_for : RepoContext → BlobPut → Bool → Store → ℕ
  charge_for ctx put created s₁ =
      if created && not (org_already_references_digest org_of s₁.blob_refs ctx.org_id put.digest)
      then put.size
      else 0

  -- The part of the transaction on the content store.
  unfoldable pub replace_blob_ref :
      ℕ → RepoContext → BlobPut → RefInput → Option ℕ → Store → Result (StoredBlob × Store)
  replace_blob_ref now ctx put input previous s =
      let dropped = drop_previous now ctx input previous s in
      let r =
        insert_counted (ensure_active_blob dropped.1 put.digest put.size) put.digest
          (ref_row ctx put.digest input) in
      let charge = charge_for ctx put r.1 dropped.1 in
      (if ltb dropped.0 charge
        then assert_storage_quota_row_allows (s.quotas ctx.org_id) (charge - dropped.0)
        else ok tt)
      >> ok (
        stored_blob put.digest put.size put.deduped r,
        if charge == dropped.0
            then r.2
            else adjust_storage_used r.2 ctx.org_id (net_delta charge dropped.0),
      )

  -- The transaction behind the check of the object. `scanned` is whether a scan is asked for and
  -- the scanner is enabled.
  unfoldable pub replace_present :
      ℕ
      → Bool
      → RepoContext
      → BlobPut
      → RefInput
      → Option ℕ
      → VersionInput
      → Registry
      → Result Replaced
  replace_present now scanned ctx put input previous version s = do
    let charge = charges_artifact (find_first (is_version version) s.versions)
    (if charge then assert_artifact_quota_row_allows (s.store.quotas ctx.org_id) 1 else ok tt)
    content ← replace_blob_ref now ctx put input previous s.store
    ok (replaced scanned ctx put previous version s content)

  unfoldable pub replace_version :
      ℕ
      → Bool
      → RepoContext
      → BlobPut
      → RefInput
      → Option ℕ
      → VersionInput
      → Registry
      → Result Replaced
  replace_version now scanned ctx put input previous version s =
      if s.store.objects put.digest
      then replace_present now scanned ctx put input previous version s
      else err blob_unknown

  -- The whole of it: behind a commit the previous object is reclaimed if nothing holds it, behind
  -- an error the upload is discarded.
  unfoldable pub upsert_package_version_with_blob_ref :
      ℕ
      → ℕ
      → Bool
      → RepoContext
      → BlobPut
      → RefInput
      → Option ℕ
      → VersionInput
      → Registry
      → Result (StoredBlob × ℕ) × Registry
  upsert_package_version_with_blob_ref now grace scanned ctx put input previous version s =
      elim (replace_version now scanned ctx put input (previous_input previous put.digest) version
        s) [
          | err e ↦ (err e, record s { store = discard_uncommitted put s.store })
          | ok done ↦ (
            ok (done.stored, done.version_id),
            elim done.delete_cas [
              | none ↦ done.registry
              | some digest ↦ record done.registry {
                store = (reclaim_unreferenced now grace digest done.registry.store).1;
              }
            ],
          )
        ]
