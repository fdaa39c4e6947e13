-- ===== src/Packages.antt =====
-- packages/registry-platform/src/packages/versions.ts with the rows of `package_versions` and
-- `version_tags`, beside the content store. The row lock on the quota serialises what the
-- transactions of one organisation do behind it, so each is one function; `err` rolls back. What
-- `upsertPackageVersion` reads before that lock is an argument. Metadata and names are compared
-- for equality only and stand as numbers; who published a version is left out. The rows that
-- `recordArtifactScanOutbox` writes stand as the digests it is called with, the last first.
pub mod Artifacts
pub mod Counter
pub mod Bookings
pub mod Publishing
pub mod Lookup
pub mod Replace
pub mod Immutable
use hootifactory.Prelude.{
  ℕ, ◌+◌, Bool, true, false, not, ◌&&◌, List, [], ◌∷◌, Option, none, some, ◌==◌, nat_eq,
  if◌then◌else◌, length, keep, find_first, is_some,
}
use hootifactory.Content.State.{QuotaRow, Store, RepoContext, Error, Result, ok, err, ◌>>=◌, ◌>>◌}
use hootifactory.Content.Quota.{
  assert_artifact_quota_row_allows, plus, minus, adjust_artifacts_used,
}
use hootifactory.Content.Blobs.{StoredBlob, RefInput, release_blob_ref}

pub record VersionRow : Type 0 where
  pub version_id : ℕ
  pub org_id : ℕ
  pub package_id : ℕ
  pub version : ℕ
  pub metadata : ℕ
  pub size_bytes : ℕ
  pub deleted_at : Option ℕ

pub record TagRow : Type 0 where
  pub package_id : ℕ
  pub tag : ℕ
  pub version_id : ℕ

pub record Registry : Type 0 where
  pub store : Store
  pub versions : List VersionRow
  pub tags : List TagRow
  pub scans : List ℕ

-- `PackageVersionInput`, with the id that the database would give a new row.
pub record VersionInput : Type 0 where
  pub package_id : ℕ
  pub version : ℕ
  pub metadata : ℕ
  pub size_bytes : ℕ
  pub fresh_id : ℕ

abbrev pub is_live : VersionRow → Bool
is_live row = not (is_some row.deleted_at)

-- The key by which a row conflicts with an insert.
abbrev pub is_version : VersionInput → VersionRow → Bool
is_version input row = row.package_id == input.package_id && row.version == input.version

-- `packageVersionValues`
abbrev pub version_row : ℕ → VersionInput → VersionRow
version_row org_id input = record {
  version_id = input.fresh_id;
  org_id = org_id;
  package_id = input.package_id;
  version = input.version;
  metadata = input.metadata;
  size_bytes = input.size_bytes;
  deleted_at = none;
}

-- `packageVersionConflictUpdate`
abbrev pub conflict_update : VersionInput → VersionRow → VersionRow
conflict_update input row = record row {
  metadata = input.metadata;
  size_bytes = input.size_bytes;
  deleted_at = none;
}

-- The update of the row with the input's key.
unfoldable pub update_version : VersionInput → List VersionRow → List VersionRow
update_version input [] = []
update_version input (row ∷ rows) =
    let rest = update_version input rows in
    if is_version input row then conflict_update input row ∷ rows else row ∷ rest

-- `insert … onConflictDoUpdate`, with the id it returns.
unfoldable pub write_version : ℕ → VersionInput → List VersionRow → ℕ × List VersionRow
write_version org_id input rows = elim (find_first (is_version input) rows) [
  | none ↦ (input.fresh_id, version_row org_id input ∷ rows)
  | some existing ↦ (existing.version_id, update_version input rows)
]

-- `!existing || existing.deletedAt !== null`
abbrev pub charges_artifact : Option VersionRow → Bool
charges_artifact none = true
charges_artifact (some existing) = is_some existing.deleted_at

unfoldable pub charge_artifact : ℕ → Bool → Store → Store
charge_artifact org_id charge s = if charge then adjust_artifacts_used s org_id (plus 1) else s

-- `existing` is the row that the first statement reads, before the quota's lock is taken: its own
-- lock keeps a row that is there as it is, but where there is none another transaction may insert
-- the row in between.
unfoldable pub upsert_package_version :
    ℕ → VersionInput → Option VersionRow → Registry → Result (ℕ × Registry)
upsert_package_version org_id input existing s = do
  let charge = charges_artifact existing
  (if charge then assert_artifact_quota_row_allows (s.store.quotas org_id) 1 else ok tt)
  let written = write_version org_id input s.versions
  ok (written.0, record s { versions = written.1; store = charge_artifact org_id charge s.store })

-- `insert … onConflictDoNothing`: no id, if the key is taken, by a deleted version too.
unfoldable pub create_package_version : ℕ → VersionInput → Registry → Result (Option ℕ × Registry)
create_package_version org_id input s = elim (find_first (is_version input) s.versions) [
  | some existing ↦ ok (none, s)
  | none ↦ do
    assert_artifact_quota_row_allows (s.store.quotas org_id) 1
    ok (
      some input.fresh_id,
      record s {
        versions = version_row org_id input ∷ s.versions;
        store = adjust_artifacts_used s.store org_id (plus 1);
      },
    )
]

-- What `commitVersionOrReleaseBlob` returns.
pub data Committed : Type 0 where
  version_made : ℕ → Committed
  conflict : Committed

-- The calls of `recordArtifactScanOutbox`.
abbrev pub record_scans : List ℕ → List ℕ → List ℕ
record_scans [] scans = scans
record_scans (digest ∷ more) scans = record_scans more (digest ∷ scans)

-- Whether a release of the blob completes, `env.SCANNER_ENABLED`, the digests of `extraScans`, and
-- the blob with its reference.
unfoldable pub commit_version_or_release_blob :
    (ℕ → ℕ)
    → ℕ
    → ℕ
    → Bool
    → Bool
    → List ℕ
    → RepoContext
    → StoredBlob
    → RefInput
    → VersionInput
    → Registry
    → Result (Committed × Registry)
commit_version_or_release_blob org_of now grace completes scanner_enabled extra ctx stored ref input
      s =
    do
      made ← create_package_version ctx.org_id input s
      ok (elim made.0 [
        | some version_id ↦ (
          version_made version_id,
          if scanner_enabled
              then record made.1 { scans = record_scans (stored.digest ∷ extra) made.1.scans }
              else made.1,
        )
        | none ↦ (
          conflict,
          if stored.ref_created
              then record made.1 {
                store =
                    release_blob_ref org_of now grace completes made.1.store ctx stored.digest ref;
              }
              else made.1,
        )
      ])

-- `setDistTag`: the tag's row is written, or its version replaced.
unfoldable pub set_tag : ℕ → ℕ → ℕ → List TagRow → List TagRow
set_tag package_id tag version_id [] =
    record { package_id = package_id; tag = tag; version_id = version_id } ∷ []
set_tag package_id tag version_id (row ∷ rows) =
    let rest = set_tag package_id tag version_id rows in
    if row.package_id == package_id && row.tag == tag
    then record row { version_id = version_id } ∷ rows
    else row ∷ rest

-- `update package_versions set deleted_at = now where deleted_at is null and p`
unfoldable pub delete_versions : ℕ → (VersionRow → Bool) → List VersionRow → List VersionRow
delete_versions now p [] = []
delete_versions now p (row ∷ rows) =
    let rest = delete_versions now p rows in
    if is_live row && p row then record row { deleted_at = some now } ∷ rest else row ∷ rest

-- What the query's `returning` counts.
abbrev pub deleted_count : (VersionRow → Bool) → List VersionRow → ℕ
deleted_count p rows = length (keep (λ row. is_live row && p row) rows)

-- `markContentPackageVersionsDeletedByDigest` of content/manifest-store.ts; `has_digest` is the
-- query's test of the metadata.
unfoldable pub mark_versions_deleted : ℕ → (ℕ → ℕ → Bool) → ℕ → ℕ → ℕ → Registry → ℕ × Registry
mark_versions_deleted now has_digest org_id package_id digest s =
    let p : VersionRow → Bool =
      λ row. row.package_id == package_id && has_digest digest row.metadata in
    let n = deleted_count p s.versions in
    (
      n,
      record s {
        versions = delete_versions now p s.versions;
        store = adjust_artifacts_used s.store org_id (minus n);
      },
    )
