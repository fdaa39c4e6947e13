-- ===== src/Content/Accounting/Sizes.antt =====
-- The sizes of blobs' rows across the transactions of packages/registry-platform/src/content/blobs.ts.
use hootifactory.Prelude.{
  ℕ, ◌+◌, ◌≡◌, refl, subst, inl, inr, Bool, ◌&&◌, List, [], ◌∷◌, Option, none, some, arith, nat_eq,
  nat_beq_iff, ◌==◌, find_first, Bool-cases, Option-cases,
}
use hootifactory.Content.State.{
  BlobRow, BlobRef, Store, RepoContext, ok, same_ref, update, >>-eq-ok,
}
use hootifactory.Content.Quota.{Delta, plus, adjust_storage_used}
use hootifactory.Content.Blobs.{
  BlobPut, StoredBlob, RefInput, ref_row, unreferenced, ensured, ensure_active_blob, insert_counted,
  insert_marked, mark_referenced, charge_created, blob_refs_after_delete, after_deletes,
  is_reclaimable, reclaim_unreferenced, commit_blob_put, commit_uploaded_blob_ref, ensure_blob_ref,
}
use hootifactory.Content.Counts.{
  counted_new, counted_old, new_store, insert_new, insert_old, pair_right,
}
use hootifactory.Content.Accounting.{Sizes}

some-row : {a b : BlobRow} → some a ≡ some b → a ≡ b
some-row h = cc

module _ (org_of : ℕ → ℕ) (size : ℕ → ℕ) (bound : ℕ) where
  abbrev Ok : (ℕ → Option BlobRow) → Type 0
  Ok = Sizes org_of size bound

  update-Sizes :
      (blobs : ℕ → Option BlobRow) (k : ℕ) (row : BlobRow)
      → Ok blobs
      → row.size_bytes ≡ size k
      → Ok (update blobs k (some row))
  update-Sizes blobs k row all h d b at = elim (Bool-cases (k == d)) [
    | inr other ↦ all d b (rw other at at)
    | inl same ↦
        let e : row ≡ b = some-row (rw same at at) in rw (← e, ← (nat_beq_iff k d).0 same) h
  ]

  removed-Sizes : (blobs : ℕ → Option BlobRow) (k : ℕ) → Ok blobs → Ok (update blobs k none)
  removed-Sizes blobs k all d b at = elim (Bool-cases (k == d)) [
    | inr other ↦ all d b (rw other at at)
    | inl same ↦ absurd (let e : none ≡ some b = rw same at at in cc)
  ]

  unreferenced_size : (now : ℕ) (b : BlobRow) → (unreferenced now b).size_bytes ≡ b.size_bytes
  unreferenced_size now b = ground arith

  trigger-Sizes :
      (now : ℕ) (blobs : ℕ → Option BlobRow) (k : ℕ)
      → Ok blobs
      → Ok (blob_refs_after_delete now blobs k)
  unfolding blob_refs_after_delete
  trigger-Sizes now blobs k all = elim (Option-cases (blobs k)) [
    | inl gone ↦ rw (gone, blob_refs_after_delete) all
    | inr (b, found) ↦
        rw (found, blob_refs_after_delete)
          (update-Sizes blobs k (unreferenced now b) all
            (rw (unreferenced_size now b) (all k b found)))
  ]

  pub after_deletes-Sizes :
      (now : ℕ) (blobs : ℕ → Option BlobRow) (refs : List BlobRef)
      → Ok blobs
      → Ok (after_deletes now blobs refs)
  unfolding after_deletes
  after_deletes-Sizes now blobs [] all = all
  after_deletes-Sizes now blobs (r ∷ rs) all =
      after_deletes-Sizes now (blob_refs_after_delete now blobs r.digest) rs
        (trigger-Sizes now blobs r.digest all)

  pub adjust-Sizes :
      (s : Store) (org : ℕ) (delta : Delta)
      → Ok s.blobs
      → Ok (adjust_storage_used s org delta).blobs
  unfolding adjust_storage_used
  adjust-Sizes s org delta all = elim (Option-cases (s.quotas org)) [
    | inl none' ↦ rw (none', adjust_storage_used) all
    | inr (q, found) ↦ rw (found, adjust_storage_used) all
  ]

  charge-Sizes :
      (org n : ℕ) (charge : Bool) (r : ℕ × Bool × Store)
      → Ok r.2.blobs
      → Ok (charge_created org n charge r).blobs
  unfolding charge_created
  charge-Sizes org n charge r all = elim (Bool-cases (r.1 && charge)) [
    | inl yes' ↦ rw yes' (adjust-Sizes r.2 org (plus n) all)
    | inr no' ↦ rw no' all
  ]

  ensured_size :
      (row : Option BlobRow) (n k : ℕ)
      → ((b : BlobRow) → row ≡ some b → b.size_bytes ≡ size k)
      → n ≡ size k
      → (ensured row n).size_bytes ≡ size k
  ensured_size none n k h e = e
  ensured_size (some b) n k h e = ground (arith, h b refl)

  counted-Sizes :
      (s : Store) (ref : BlobRef) (n : ℕ)
      → n ≡ size ref.digest
      → Ok s.blobs
      → Ok (insert_counted (ensure_active_blob s ref.digest n) ref.digest ref).2.blobs
  unfolding new_store ensure_active_blob
  counted-Sizes s ref n e all =
      let row = ensured (s.blobs ref.digest) n in
      let right : row.size_bytes ≡ size ref.digest =
        ensured_size (s.blobs ref.digest) n ref.digest (all ref.digest) e in
      let once : Ok (update s.blobs ref.digest (some row)) =
        update-Sizes s.blobs ref.digest row all right in
      elim (Option-cases (find_first (same_ref ref) s.blob_refs)) [
        | inl new ↦ rw (counted_new s n ref new) (
            update-Sizes (update s.blobs ref.digest (some row)) ref.digest
              (record row { ref_count = row.ref_count + 1 }) once right)
        | inr (old, found) ↦ rw (counted_old s n ref found) once
      ]

  marked-Sizes :
      (s : Store) (b : BlobRow) (ref : BlobRef)
      → b.size_bytes ≡ size ref.digest
      → Ok s.blobs
      → Ok (insert_marked s ref.digest b ref).2.blobs
  unfolding insert_marked mark_referenced
  marked-Sizes s b ref e all = elim (Option-cases (find_first (same_ref ref) s.blob_refs)) [
    | inl new ↦ rw (insert_marked, insert_new s ref new) (update-Sizes s.blobs ref.digest _ all e)
    | inr (old, found) ↦ rw (insert_marked, insert_old s ref found) all
  ]

  pub commit-Sizes :
      (s : Store) (ctx : RepoContext) (put : BlobPut) (input : RefInput) {stored : StoredBlob}
      {t : Store}
      → put.size ≡ size put.digest
      → Ok s.blobs
      → commit_uploaded_blob_ref org_of s ctx put input ≡ ok (stored, t)
      → Ok t.blobs
  unfolding commit_uploaded_blob_ref commit_blob_put
  commit-Sizes s ctx put input sized all h = elim (Bool-cases (s.objects put.digest)) [
    | inr gone ↦ absurd (cc (rw gone at h))
    | inl there ↦
        let ref = ref_row ctx put.digest input in
        let e = pair_right (>>-eq-ok _ _ (rw there at h)).1 in
        subst (λ (u : Store). Ok u.blobs) e
          (charge-Sizes ctx.org_id put.size _ _ (counted-Sizes s ref put.size sized all))
  ]

  pub ensure-Sizes :
      (s : Store) (ctx : RepoContext) (digest : ℕ) (input : RefInput) {stored : StoredBlob}
      {t : Store}
      → Ok s.blobs
      → ensure_blob_ref org_of s ctx digest input ≡ ok (stored, t)
      → Ok t.blobs
  unfolding ensure_blob_ref
  ensure-Sizes s ctx digest input all h = elim (Option-cases (s.blobs digest)) [
    | inl gone ↦ absurd (cc (rw (gone, ensure_blob_ref) at h))
    | inr (b, found) ↦
        let e = pair_right (>>-eq-ok _ _ (rw (found, ensure_blob_ref) at h)).1 in
        subst (λ (u : Store). Ok u.blobs) e
          (charge-Sizes ctx.org_id b.size_bytes _ _
            (marked-Sizes s b (ref_row ctx digest input) (all digest b found) all))
  ]

  pub reclaim-Sizes :
      (now grace digest : ℕ) (s : Store)
      → Ok s.blobs
      → Ok (reclaim_unreferenced now grace digest s).1.blobs
  unfolding reclaim_unreferenced
  reclaim-Sizes now grace digest s all = elim (Option-cases (s.blobs digest)) [
    | inl gone ↦ rw (gone, reclaim_unreferenced) all
    | inr (b, found) ↦ elim (Bool-cases (is_reclaimable now grace b)) [
      | inr stay ↦ rw (found, reclaim_unreferenced, stay) all
      | inl go ↦ rw (found, reclaim_unreferenced, go) (removed-Sizes s.blobs digest all)
    ]
  ]
