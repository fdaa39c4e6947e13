-- ===== src/Tests/PackagesTests.antt =====
-- Tests of packages/registry-platform/src/packages/versions.ts: one organisation with room for one
-- artifact.
use hootifactory.Content.Refs.{Inv}
use hootifactory.Content.Accounting.{Charged, Sizes}
use hootifactory.Content.Usage.{usage_cons, usage_nil}
use hootifactory.Prelude.{
  inl, inr, Bool-cases, nat_beq_iff, ◌||◌, ℕ, ◌+◌, ◌≡◌, refl, true, false, Bool, [], ◌∷◌, Option,
  none, some, arith, ◌==◌, nat_eq, if◌then◌else◌, find_first,
}
use hootifactory.Content.State.{
  active, BlobRow, BlobRef, quota_exceeded, QuotaRow, RepoContext, ok, err,
}
use hootifactory.Content.Quota.{
  org_already_references_digest, assert_artifact_quota_row_allows, adjust_artifacts_used,
}
use hootifactory.Content.Blobs.{
  delete_blob_refs, insert_counted, insert_blob_ref, ensure_active_blob, reclaim_unreferenced,
  increment_blob_ref_count, after_deletes, blob_refs_after_delete, BlobPut, StoredBlob, RefInput,
}
use hootifactory.Content.Lifecycle.{empty_store}
use hootifactory.Packages.{
  Registry, VersionInput, version_made, is_version, version_row, write_version, update_version,
  charge_artifact, upsert_package_version, create_package_version, commit_version_or_release_blob,
  mark_versions_deleted,
}
use hootifactory.Packages.Replace.{
  upsert_package_version_with_blob_ref, replace_version, replace_present, replace_blob_ref,
  drop_previous,
}
use hootifactory.Packages.Replace.Outcomes.{IsExact, upsert_with_blob_ref-IsExact}
use hootifactory.Packages.Immutable.{publish_immutable_version_blob}
use hootifactory.Packages.Artifacts.{live_of}
use hootifactory.Packages.Counter.{artifacts_of}
use hootifactory.Packages.Bookings.{IsBooked}
use hootifactory.Packages.Publishing.{
  PublishStep, Published, double_charges, artifact_counter_exact,
}
use hootifactory.Packages.Lookup.{Holds, upsert_then_found}

abbrev one_artifact : QuotaRow
one_artifact = record {
  used_storage = 0;
  max_storage = none;
  used_artifacts = 0;
  max_artifacts = some 1;
}

abbrev quota_of_one : ℕ → Option QuotaRow
quota_of_one org = if org == 1 then some one_artifact else none

abbrev nothing_yet : Registry
nothing_yet = record { store = empty_store quota_of_one; versions = []; tags = []; scans = [] }

abbrev first_version : VersionInput
first_version = record {
  package_id = 4;
  version = 10;
  metadata = 7;
  size_bytes = 5;
  fresh_id = 100;
}

abbrev second_version : VersionInput
second_version = record first_version { version = 20; fresh_id = 101 }

abbrev all_of_one : ℕ → ℕ
all_of_one id = 1

abbrev published : Registry
published = record nothing_yet {
  versions = version_row 1 first_version ∷ [];
  store = adjust_artifacts_used (empty_store quota_of_one) 1 (hootifactory.Content.Quota.plus 1);
}

first_upserted : upsert_package_version 1 first_version none nothing_yet ≡ ok (100, published)
unfolding upsert_package_version write_version charge_artifact assert_artifact_quota_row_allows
first_upserted = refl

second_refused : upsert_package_version 1 second_version none published ≡ err quota_exceeded
unfolding upsert_package_version write_version charge_artifact assert_artifact_quota_row_allows
    adjust_artifacts_used
second_refused = refl

upsert_then_found_example :
    Holds first_version 100 (find_first (is_version first_version) published.versions)
    × (find_first (is_version second_version) published.versions
        ≡ find_first (is_version second_version) nothing_yet.versions)
upsert_then_found_example =
    upsert_then_found 1 first_version second_version none nothing_yet 100 first_upserted refl

abbrev stored : StoredBlob
stored = record { digest = 9; size = 5; deduped = false; ref_created = true; blob_ref_id = 3 }

abbrev repo_of_one : RepoContext
repo_of_one = record { repo_id = 2; org_id = 1 }

abbrev any_ref : RefInput
any_ref = record { kind = 0; scope = 0; fresh_id = 1 }

abbrev committed_registry : Registry
committed_registry = record published { scans = 9 ∷ [] }

first_committed :
    commit_version_or_release_blob all_of_one 50 60 true true [] repo_of_one stored any_ref
      first_version nothing_yet
    ≡ ok (version_made 100, committed_registry)
unfolding commit_version_or_release_blob create_package_version assert_artifact_quota_row_allows
first_committed = refl

nothing_yet-IsBooked : IsBooked all_of_one all_of_one (λ o. 0) nothing_yet
unfolding artifacts_of
nothing_yet-IsBooked = (tt, λ o n h. ground arith)

-- A version is committed, and deleted again by its digest.
abbrev with_metadata : ℕ → ℕ → Bool
with_metadata digest metadata = metadata == 7

abbrev emptied : Registry
emptied = (mark_versions_deleted 60 with_metadata 1 4 9 committed_registry).1

to_emptied : Published all_of_one all_of_one nothing_yet emptied
to_emptied =
    Published.then_step
      (Published.then_step Published.begin (
        PublishStep.committed 50 60 true true [] repo_of_one stored any_ref first_version
          (version_made 100) refl first_committed))
      (PublishStep.marked 60 with_metadata 1 4 9 refl)

one_left : emptied.store.quotas 1 ≡ some one_artifact
unfolding mark_versions_deleted adjust_artifacts_used
one_left = refl

-- Two upserts of one new version, of which both found no row: the second one charges again.
abbrev two_artifacts : QuotaRow
two_artifacts = record one_artifact { max_artifacts = some 2 }

abbrev roomy : ℕ → Option QuotaRow
roomy org = if org == 1 then some two_artifacts else none

abbrev roomy_start : Registry
roomy_start = record nothing_yet { store = empty_store roomy }

abbrev upserted_once : Registry
upserted_once = record roomy_start {
  versions = version_row 1 first_version ∷ [];
  store = adjust_artifacts_used (empty_store roomy) 1 (hootifactory.Content.Quota.plus 1);
}

abbrev upserted_twice : Registry
upserted_twice = record upserted_once {
  versions = update_version first_version upserted_once.versions;
  store = adjust_artifacts_used upserted_once.store 1 (hootifactory.Content.Quota.plus 1);
}

once_upserted : upsert_package_version 1 first_version none roomy_start ≡ ok (100, upserted_once)
unfolding upsert_package_version write_version charge_artifact assert_artifact_quota_row_allows
once_upserted = refl

twice_upserted :
    upsert_package_version 1 first_version none upserted_once ≡ ok (100, upserted_twice)
unfolding upsert_package_version write_version charge_artifact assert_artifact_quota_row_allows
    adjust_artifacts_used update_version
twice_upserted = refl

none_charges : {b : Bool} → true ≡ false → b ≡ false
none_charges h = cc h

abbrev raced : Published all_of_one all_of_one roomy_start upserted_twice
raced =
    Published.then_step
      (Published.then_step Published.begin
        (PublishStep.upserted 1 first_version none 100 refl none_charges once_upserted))
      (PublishStep.upserted 1 first_version none 100 refl none_charges twice_upserted)

abbrev charged_twice : QuotaRow
charged_twice = record two_artifacts { used_artifacts = 2 }

roomy-IsBooked : IsBooked all_of_one all_of_one (λ o. 0) roomy_start
unfolding artifacts_of
roomy-IsBooked = (tt, λ o n h. ground arith)

both_charged : upserted_twice.store.quotas 1 ≡ some charged_twice
unfolding adjust_artifacts_used
both_charged = refl

artifact_counter_exact_example :
    2 ≡ live_of 1 upserted_twice.versions + double_charges all_of_one all_of_one 1 raced
artifact_counter_exact_example =
    artifact_counter_exact all_of_one all_of_one roomy-IsBooked raced 1 charged_twice both_charged

-- A version whose blob takes the place of the one before.
abbrev old_blob : BlobPut
old_blob = record { digest = 5; size = 40; deduped = false }

abbrev new_blob : BlobPut
new_blob = record { digest = 6; size = 40; deduped = false }

-- Every digest has forty bytes.
abbrev all_forty : ℕ → ℕ
all_forty digest = 40

abbrev old_row : BlobRow
old_row = record { size_bytes = 40; ref_count = 1; state = active; pending_since = none }

abbrev old_ref : BlobRef
old_ref = record { ref_id = 1; digest = 5; kind = 0; repository_id = 2; scope = 0 }

abbrev with_old : Registry
with_old = record nothing_yet {
  store = record {
    blobs = λ d. if 5 == d then some old_row else none;
    blob_refs = old_ref ∷ [];
    quotas = λ org. if org == 1 then some (record one_artifact { used_storage = 40 }) else none;
    objects = λ d. 5 == d || 6 == d;
  };
}

abbrev replaced_registry : Registry
replaced_registry =
    (upsert_package_version_with_blob_ref all_of_one 50 60 false repo_of_one new_blob any_ref
      (some 5) first_version with_old).1

new_counted :
    replaced_registry.store.quotas 1
    ≡ some (record one_artifact { used_storage = 40; used_artifacts = 1 })
unfolding upsert_package_version_with_blob_ref replace_version replace_present replace_blob_ref
    drop_previous assert_artifact_quota_row_allows org_already_references_digest delete_blob_refs
    insert_counted insert_blob_ref ensure_active_blob reclaim_unreferenced charge_artifact
    adjust_artifacts_used increment_blob_ref_count after_deletes blob_refs_after_delete
new_counted = refl

with_old-Inv : Inv with_old.store
with_old-Inv d = elim (Bool-cases (5 == d)) [
  | inl same ↦
      let e : 5 ≡ d = (nat_beq_iff 5 d).0 same in
      rw same (ground (arith, e), refl, λ f. cc, λ f. ground (arith, e))
  | inr other ↦ rw other (ground arith)
]

with_old-Sizes : Sizes all_of_one all_forty 8 with_old.store.blobs
with_old-Sizes d b at = ground arith

with_old-Charged : Charged all_of_one all_forty 8 with_old.store
unfolding org_already_references_digest
with_old-Charged o q at = elim (Bool-cases (o == 1)) [
  | inl same ↦
      let e : o ≡ 1 = (nat_beq_iff o 1).0 same in
      let f : some (record one_artifact { used_storage = 40 }) ≡ some q = rw same at at in
      let q_is : record one_artifact { used_storage = 40 } ≡ q = cc f in
      rw
        (
          ← q_is,
          e,
          usage_cons all_of_one all_forty 8 old_ref [] 1 refl (omega arith),
          usage_nil all_of_one all_forty 8 1,
        )
        refl
  | inr other ↦ absurd (let f : none ≡ some q = rw other at at in cc f)
]

upsert_with_blob_ref-IsExact_example : IsExact all_of_one all_forty 8 replaced_registry.store
upsert_with_blob_ref-IsExact_example =
    upsert_with_blob_ref-IsExact all_of_one all_forty 8 50 60 false repo_of_one new_blob any_ref
      (some 5) first_version with_old
      (record {
        own = refl;
        below = omega arith;
        sized = refl;
        previous_below = λ d h. ground arith;
      })
      with_old-Sizes (with_old-Inv, with_old-Charged)

-- The version is there already, and its blob is uploaded.
abbrev with_upload : Registry
with_upload = record published { store = record published.store { objects = λ d. 5 == d } }

abbrev after_conflict : Registry
after_conflict =
    (publish_immutable_version_blob all_of_one 50 60 false true repo_of_one old_blob any_ref
      first_version with_upload).1
