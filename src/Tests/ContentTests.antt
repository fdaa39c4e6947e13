-- ===== src/Tests/ContentTests.antt =====
-- Tests of packages/registry-platform/src/content: one blob, uploaded, committed and released.
use hootifactory.Prelude.{
  ℕ, ◌≤◌, ◌≡◌, refl, true, false, [], ◌∷◌, Option, none, some, arith, ◌==◌, nat_eq,
}
use hootifactory.Content.State.{
  active, pending_delete, upload_unknown, BlobRow, QuotaRow, Store, RepoContext, Result, ok, err,
  update,
}
use hootifactory.Content.Quota.{
  assert_storage_quota_row_allows, adjust_storage_used, org_already_references_digest,
}
use hootifactory.Content.Blobs.{
  BlobPut, StoredBlob, RefInput, commit_uploaded_blob_ref, commit_blob_put, delete_and_refund,
  reclaim_unreferenced, ensure_active_blob, insert_counted, insert_blob_ref,
  increment_blob_ref_count, charge_created, delete_blob_refs, after_deletes, blob_refs_after_delete,
}
use hootifactory.Content.Refs.{refs_to}
use hootifactory.Content.Lifecycle
use hootifactory.Content.Lifecycle.{
  Reach, here, next, referenced_survives, unreferenced_reclaimed, empty_store, empty-Inv,
}
use hootifactory.Content.Uploads.{
  UploadState, open_state, UploadSession, Uploads, Target, ChunkPlan, finish_patch, plan_chunk,
  load_open, assert_open_session, validate_content_range, plan_upload_chunk, assert_staging_budget,
  open_bytes, finish_put, check_put, cancel_upload, upload_status,
}
use hootifactory.Content.Uploads.Staging
use hootifactory.Content.Usage.{usage}
use hootifactory.Content.Accounting.Entries.{
  Entries, none_yet, then_entry, uploaded, committed, empty-Books, storage_counter_exact,
}
use hootifactory.Content.Accounting.Limits.{Within, commit-Within}
use hootifactory.Content.Uploads.Offsets.{Offsets, Reach-Offsets}
use hootifactory.Content.Uploads.Closed.{put_upload_closes}
use hootifactory.Content.Uploads.Budget.{patch_within_budget}

abbrev one_org : ℕ → ℕ
one_org repository = 1

abbrev quota_table : ℕ → Option QuotaRow
quota_table org =
    some (record {
      used_storage = 0;
      max_storage = some 100;
      used_artifacts = 0;
      max_artifacts = none;
    })

abbrev repo : RepoContext
repo = record { repo_id = 3; org_id = 1 }

abbrev layer : BlobPut
layer = record { digest = 5; size = 40; deduped = false }

abbrev layer_ref : RefInput
layer_ref = record { kind = 0; scope = 0; fresh_id = 11 }

abbrev start : Store
start = empty_store quota_table

abbrev with_object : Store
with_object = record start { objects = update start.objects 5 true }

abbrev commit_result : Result (StoredBlob × Store)
commit_result = commit_uploaded_blob_ref one_org with_object repo layer layer_ref

abbrev stored_layer : StoredBlob
stored_layer = record {
  digest = 5;
  size = 40;
  deduped = false;
  ref_created = true;
  blob_ref_id = 11;
}

abbrev result_store : Result (StoredBlob × Store) → Store
result_store (ok (stored, s)) = s
result_store (err e) = start

abbrev with_layer : Store
with_layer = result_store commit_result

abbrev released : Store
released = (delete_and_refund one_org 100 with_layer 1 5 (λ ref. ref.digest == 5)).1

layer_committed : commit_result ≡ ok (stored_layer, with_layer)
unfolding commit_uploaded_blob_ref commit_blob_put ensure_active_blob insert_counted insert_blob_ref
    increment_blob_ref_count charge_created assert_storage_quota_row_allows adjust_storage_used
    org_already_references_digest
layer_committed = refl

to_layer : Reach one_org start with_layer
to_layer =
    next (next here (Lifecycle.uploaded 5))
      (Lifecycle.committed repo layer layer_ref layer_committed)

referenced_survives_example :
    (b : BlobRow) × (with_layer.blobs 5 ≡ some b)
    × (b.ref_count ≡ refs_to 5 with_layer.blob_refs)
    × (b.state ≡ active)
    × (with_layer.objects 5 ≡ true)
unfolding commit_uploaded_blob_ref commit_blob_put ensure_active_blob insert_counted insert_blob_ref
    increment_blob_ref_count charge_created assert_storage_quota_row_allows adjust_storage_used
    org_already_references_digest
referenced_survives_example = referenced_survives to_layer (empty-Inv quota_table) 5 (omega arith)

abbrev old_layer : BlobRow
old_layer = record {
  size_bytes = 40;
  ref_count = 0;
  state = pending_delete;
  pending_since = some 100;
}

unreferenced_reclaimed_example :
    (old_layer.state ≡ pending_delete)
    × ((reclaim_unreferenced 200 60 5 released).0 ≡ true)
    × ((reclaim_unreferenced 200 60 5 released).1.blobs 5 ≡ none)
    × ((reclaim_unreferenced 200 60 5 released).1.objects 5 ≡ false)
unfolding commit_uploaded_blob_ref commit_blob_put ensure_active_blob insert_counted insert_blob_ref
    increment_blob_ref_count charge_created assert_storage_quota_row_allows adjust_storage_used
    org_already_references_digest delete_and_refund delete_blob_refs after_deletes
    blob_refs_after_delete
unreferenced_reclaimed_example =
    unreferenced_reclaimed (next to_layer (Lifecycle.deleted 100 1 5 (λ ref. ref.digest == 5)))
      (empty-Inv quota_table) 200 60 5 old_layer refl refl (λ since e. ground arith)

abbrev charged_row : QuotaRow
charged_row = record {
  used_storage = 40;
  max_storage = some 100;
  used_artifacts = 0;
  max_artifacts = none;
}

-- Every digest below eight has forty bytes.
abbrev forty : ℕ → ℕ
forty digest = 40

zero_counters : (o : ℕ) (q : QuotaRow) → quota_table o ≡ some q → q.used_storage ≡ 0
zero_counters o q at = let e : Path ℕ 0 q.used_storage = cc in omega (arith, e)

booked_layer : Entries one_org forty 8 start with_layer
booked_layer =
    then_entry (then_entry none_yet (uploaded 5))
      (committed repo layer layer_ref refl (omega arith) refl layer_committed)

storage_counter_exact_example :
    charged_row.used_storage ≡ usage one_org forty 8 with_layer.blob_refs 1
unfolding commit_uploaded_blob_ref commit_blob_put ensure_active_blob insert_counted insert_blob_ref
    increment_blob_ref_count charge_created assert_storage_quota_row_allows adjust_storage_used
    org_already_references_digest
storage_counter_exact_example =
    storage_counter_exact one_org forty 8 booked_layer
      (empty-Books one_org forty 8 quota_table zero_counters) 1 charged_row refl

fits : Within (quota_table 1)
fits q m at limit = ground arith

commit-Within_example : Within (with_layer.quotas 1)
commit-Within_example =
    commit-Within one_org with_object repo layer layer_ref stored_layer with_layer fits
      layer_committed

abbrev full_quota : QuotaRow
full_quota = record {
  used_storage = 0;
  max_storage = some 100;
  used_artifacts = 0;
  max_artifacts = none;
}

abbrev image : Target
image = record { ctx = repo; scope = 0; uuid = 9 }

abbrev session : UploadSession
session = record {
  id = 9;
  repository_id = 3;
  scope = 0;
  offset_bytes = 10;
  chunks = record { key = 1; size = 10 } ∷ [];
  state = open_state;
  expires_at = 50;
}

abbrev uploading : Uploads
uploading = record { content = with_object; sessions = session ∷ [] }

abbrev plan : ChunkPlan
plan = record {
  start_offset = 10;
  offset = 30;
  chunks = record { key = 1; size = 10 } ∷ record { key = 2; size = 20 } ∷ [];
}

abbrev longer : Uploads
longer = record uploading {
  sessions = record session { offset_bytes = 30; chunks = plan.chunks } ∷ [];
}

patched_once : finish_patch one_org 20 64 image none 20 2 plan [] uploading ≡ ok (30, longer)
unfolding finish_patch plan_chunk load_open assert_open_session validate_content_range
    plan_upload_chunk assert_staging_budget assert_storage_quota_row_allows
patched_once = refl

patch_within_budget_example : open_bytes one_org 1 (λ s. true) longer.sessions ≤ 64
patch_within_budget_example =
    patch_within_budget one_org 20 64 image none 20 2 plan [] uploading (30, longer) full_quota refl
      (omega arith) patched_once

Reach-Offsets_example : Offsets longer
Reach-Offsets_example =
    Reach-Offsets {org_of = one_org}
      (Staging.next Staging.here (Staging.patched 20 64 image none 20 2 plan [] patched_once))
      ((λ o. refl), tt)

abbrev put_result : Uploads
put_result = record {
  content = with_layer;
  sessions = record session { state = UploadState.committed; offset_bytes = 40 } ∷ [];
}

put_once :
    finish_put one_org 20 image none none layer layer_ref uploading ≡ ok (stored_layer, put_result)
unfolding finish_put load_open assert_open_session check_put validate_content_range
    commit_uploaded_blob_ref commit_blob_put ensure_active_blob insert_counted insert_blob_ref
    increment_blob_ref_count charge_created assert_storage_quota_row_allows adjust_storage_used
    org_already_references_digest
put_once = refl

-- Behind the commit the session is asked for once more.
abbrev asked_state : Uploads
asked_state = (upload_status 21 image put_result).1

abbrev asked_again : Staging.Reach one_org put_result asked_state
asked_again = Staging.next Staging.here (Staging.asked 21 image)

put_upload_closes_example :
    (finish_patch one_org 22 64 image none 20 2 plan [] asked_state ≡ err upload_unknown)
    × (finish_put one_org 22 image none none layer layer_ref asked_state ≡ err upload_unknown)
    × (cancel_upload 22 image asked_state ≡ err upload_unknown)
put_upload_closes_example =
    put_upload_closes one_org 20 image none none layer layer_ref uploading
      (stored_layer, put_result) put_once asked_state asked_again (tt, refl) 22 64 20 2 none none
      plan [] layer layer_ref
