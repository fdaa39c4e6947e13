-- ===== src/Content/Blobs.antt =====
-- packages/registry-platform/src/content/blobs.ts. The digest lock serialises the transactions on
-- one digest, so each transaction is one function on the store; `err` rolls back. The trigger
-- `blob_refs_after_delete` of packages/db/migrations is part of every delete of a reference.
use hootifactory.Prelude.{
  ℕ, ◌+◌, ◌-◌, Bool, true, false, not, ◌&&◌, List, [], ◌∷◌, Option, none, some, ◌==◌, nat_eq,
  if◌then◌else◌, leb, keep, find_first,
}
use hootifactory.Content.State.{
  active, pending_delete, BlobRow, BlobRef, Store, RepoContext, blob_unknown, Result, ok, err, ◌>>◌,
  update, same_ref,
}
use hootifactory.Content.Quota.{
  assert_storage_quota_row_allows, plus, minus, adjust_storage_used, org_already_references_digest,
}

pub record BlobPut : Type 0 where
  pub digest : ℕ
  pub size : ℕ
  pub deduped : Bool

pub record StoredBlob : Type 0 where
  pub digest : ℕ
  pub size : ℕ
  pub deduped : Bool
  pub ref_created : Bool
  pub blob_ref_id : ℕ

-- The reference that a request asks for, with the id that the database would give a new row.
pub record RefInput : Type 0 where
  pub kind : ℕ
  pub scope : ℕ
  pub fresh_id : ℕ

abbrev pub fresh_blob : ℕ → BlobRow
fresh_blob size = record { size_bytes = size; ref_count = 0; state = active; pending_since = none }

abbrev pub reactivated : BlobRow → BlobRow
reactivated b = elim b.state [
  | active ↦ b
  | pending_delete ↦ record b { state = active; pending_since = none }
]

-- The row after the insert, or after the update of a conflicting row.
abbrev pub ensured : Option BlobRow → ℕ → BlobRow
ensured none size = fresh_blob size
ensured (some b) size = reactivated b

unfoldable pub ensure_active_blob : Store → ℕ → ℕ → Store
ensure_active_blob s digest size = record s {
  blobs = update s.blobs digest (some (ensured (s.blobs digest) size));
}

abbrev pub ref_row : RepoContext → ℕ → RefInput → BlobRef
ref_row ctx digest input = record {
  ref_id = input.fresh_id;
  digest = digest;
  kind = input.kind;
  repository_id = ctx.repo_id;
  scope = input.scope;
}

-- The id of the reference, and whether it was inserted.
unfoldable pub insert_blob_ref : Store → BlobRef → ℕ × Bool × Store
insert_blob_ref s ref = elim (find_first (same_ref ref) s.blob_refs) [
  | none ↦ (ref.ref_id, true, record s { blob_refs = ref ∷ s.blob_refs })
  | some existing ↦ (existing.ref_id, false, s)
]

unfoldable pub increment_blob_ref_count : Store → ℕ → Store
increment_blob_ref_count s digest = elim (s.blobs digest) [
  | none ↦ s
  | some b ↦ record s {
    blobs = update s.blobs digest (some (record b { ref_count = b.ref_count + 1 }));
  }
]

-- The trigger's row after the delete of one reference at the time `now`.
abbrev pub unreferenced : ℕ → BlobRow → BlobRow
unreferenced now b =
    if leb (b.ref_count - 1) 0
    then record b { ref_count = b.ref_count - 1; state = pending_delete; pending_since = some now }
    else record b { ref_count = b.ref_count - 1 }

unfoldable pub blob_refs_after_delete : ℕ → (ℕ → Option BlobRow) → ℕ → ℕ → Option BlobRow
blob_refs_after_delete now blobs digest = elim (blobs digest) [
  | none ↦ blobs
  | some b ↦ update blobs digest (some (unreferenced now b))
]

-- The insert of a reference and, if it was made, the count.
unfoldable pub insert_counted : Store → ℕ → BlobRef → ℕ × Bool × Store
insert_counted s digest ref =
    let r = insert_blob_ref s ref in
    (r.0, r.1, if r.1 then increment_blob_ref_count r.2 digest else r.2)

-- A charge that is made when a reference was inserted to a digest new to the organisation.
unfoldable pub charge_created : ℕ → ℕ → Bool → ℕ × Bool × Store → Store
charge_created org_id size charge_org r =
    if r.1 && charge_org then adjust_storage_used r.2 org_id (plus size) else r.2

abbrev pub stored_blob : ℕ → ℕ → Bool → ℕ × Bool × Store → StoredBlob
stored_blob digest size deduped r = record {
  digest = digest;
  size = size;
  deduped = deduped;
  ref_created = r.1;
  blob_ref_id = r.0;
}

-- The update of `ensureBlobRef` after its insert.
unfoldable pub mark_referenced : Store → ℕ → BlobRow → Store
mark_referenced s digest b = record s {
  blobs =
      update s.blobs digest
        (some (record b { ref_count = b.ref_count + 1; state = active; pending_since = none }));
}

-- The insert of a reference and, if it was made, the update of the blob's row.
unfoldable pub insert_marked : Store → ℕ → BlobRow → BlobRef → ℕ × Bool × Store
insert_marked s digest b ref =
    let r = insert_blob_ref s ref in (r.0, r.1, if r.1 then mark_referenced r.2 digest b else r.2)

-- `delete from blob_refs where p`, with the trigger run for each deleted row.
unfoldable pub after_deletes : ℕ → (ℕ → Option BlobRow) → List BlobRef → ℕ → Option BlobRow
after_deletes now blobs [] = blobs
after_deletes now blobs (ref ∷ refs) =
    after_deletes now (blob_refs_after_delete now blobs ref.digest) refs

unfoldable pub delete_blob_refs : ℕ → (BlobRef → Bool) → Store → Store
delete_blob_refs now p s = record s {
  blobs = after_deletes now s.blobs (keep p s.blob_refs);
  blob_refs = keep (λ ref. not (p ref)) s.blob_refs;
}

-- The row that the sweeper may delete at the time `now`.
abbrev pub is_reclaimable : ℕ → ℕ → BlobRow → Bool
is_reclaimable now grace b = elim b.state [
  | active ↦ false
  | pending_delete ↦
      b.ref_count == 0
      && (elim b.pending_since [ none ↦ true | some since ↦ leb (since + grace) now ])
]

-- `reclaimUnreferencedCasBlob`
unfoldable pub reclaim_unreferenced : ℕ → ℕ → ℕ → Store → Bool × Store
reclaim_unreferenced now grace digest s = elim (s.blobs digest) [
  | none ↦ (false, s)
  | some b ↦
      if is_reclaimable now grace b
      then (
        true,
        record s { blobs = update s.blobs digest none; objects = update s.objects digest false },
      )
      else (false, s)
]

-- `deleteUnrecordedCasBlob`, behind `discardUncommittedBlobPut`
unfoldable pub discard_uncommitted : BlobPut → Store → Store
discard_uncommitted put s = if put.deduped then s else elim (s.blobs put.digest) [
  | some b ↦ s
  | none ↦ record s { objects = update s.objects put.digest false }
]

-- `sweepUnreferencedCasBlobs` over the digests that its query selects: how many it reclaimed.
unfoldable pub sweep_unreferenced : ℕ → ℕ → List ℕ → Store → ℕ × Store
sweep_unreferenced now grace [] s = (0, s)
sweep_unreferenced now grace (digest ∷ digests) s =
    let r = reclaim_unreferenced now grace digest s in
    let rest = sweep_unreferenced now grace digests r.1 in
    (if r.0 then rest.0 + 1 else rest.0, rest.1)

module _ (org_of : ℕ → ℕ) where
  -- `commitBlobPutTx`
  unfoldable pub commit_blob_put :
      Store → RepoContext → BlobPut → RefInput → Result (StoredBlob × Store)
  commit_blob_put s ctx put input = do
    let charge_org = not (org_already_references_digest org_of s.blob_refs ctx.org_id put.digest)
    (if charge_org then assert_storage_quota_row_allows (s.quotas ctx.org_id) put.size else ok tt)
    let r =
        insert_counted (ensure_active_blob s put.digest put.size) put.digest
          (ref_row ctx put.digest input)
    ok (
      stored_blob put.digest put.size put.deduped r,
      charge_created ctx.org_id put.size charge_org r,
    )

  -- `commitUploadedBlobRefTx`: the transaction of the store-with-ref paths.
  unfoldable pub commit_uploaded_blob_ref :
      Store → RepoContext → BlobPut → RefInput → Result (StoredBlob × Store)
  commit_uploaded_blob_ref s ctx put input =
      if s.objects put.digest then commit_blob_put s ctx put input else err blob_unknown

  -- `ensureBlobRef`: a reference to a blob that is already recorded.
  unfoldable pub ensure_blob_ref : Store → RepoContext → ℕ → RefInput → Result (StoredBlob × Store)
  ensure_blob_ref s ctx digest input = elim (s.blobs digest) [
    | none ↦ err blob_unknown
    | some b ↦ do
      let charge_org = not (org_already_references_digest org_of s.blob_refs ctx.org_id digest)
      (if charge_org
          then assert_storage_quota_row_allows (s.quotas ctx.org_id) b.size_bytes
          else ok tt)
      let r = insert_marked s digest b (ref_row ctx digest input)
      ok (
        stored_blob digest b.size_bytes true r,
        charge_created ctx.org_id b.size_bytes charge_org r,
      )
  ]

  -- What `releaseBlobRef` and `releaseRepoDigestTx` do alike: delete the references, and refund
  -- the organisation if it has no other to the digest. The blob's row after the trigger is the
  -- result, if a reference was deleted and the blob has a row.
  unfoldable pub delete_and_refund : ℕ → Store → ℕ → ℕ → (BlobRef → Bool) → Option BlobRow × Store
  delete_and_refund now s org_id digest p = elim (keep p s.blob_refs) [
    | [] ↦ (none, s)
    | _ ∷ _ ↦
        let s₁ = delete_blob_refs now p s in
        elim (s₁.blobs digest) [
          | none ↦ (none, s₁)
          | some b ↦ (
            some b,
            if org_already_references_digest org_of s₁.blob_refs org_id digest
                then s₁
                else adjust_storage_used s₁ org_id (minus b.size_bytes),
          )
        ]
  ]

  -- `releaseBlobRef`: the transaction, then the best-effort reclaim. `completes` says whether the
  -- transaction commits; its failure is logged and not thrown, and leaves everything as it was.
  unfoldable pub release_blob_ref : ℕ → ℕ → Bool → Store → RepoContext → ℕ → RefInput → Store
  release_blob_ref now grace false s ctx digest input = s
  release_blob_ref now grace true s ctx digest input =
      let r = delete_and_refund now s ctx.org_id digest (same_ref (ref_row ctx digest input)) in
      elim r.0 [ none ↦ r.1 | some b ↦ (reclaim_unreferenced now grace digest r.1).1 ]

  abbrev pub repo_digest : ℕ → ℕ → BlobRef → Bool
  repo_digest repository_id digest ref = ref.repository_id == repository_id && ref.digest == digest

  -- `releaseRepoDigestTx`: the digest whose object may be reclaimed.
  unfoldable pub release_repo_digest : ℕ → Store → RepoContext → ℕ → Option ℕ × Store
  release_repo_digest now s ctx digest =
      let r = delete_and_refund now s ctx.org_id digest (repo_digest ctx.repo_id digest) in
      (elim r.0 [ none ↦ none | some b ↦ if leb b.ref_count 0 then some digest else none ], r.1)

  -- `storeBlobWithRef` and `storeBlobStreamWithRef` behind their upload: the commit, or the discard
  -- of what was uploaded.
  unfoldable pub commit_or_discard :
      Store → RepoContext → BlobPut → RefInput → Result StoredBlob × Store
  commit_or_discard s ctx put input = elim (commit_uploaded_blob_ref s ctx put input) [
    | ok (stored, t) ↦ (ok stored, t)
    | err e ↦ (err e, discard_uncommitted put s)
  ]
