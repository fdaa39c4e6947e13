-- ===== src/Content/Counts.antt =====
-- The invariant of one digest, kept by every transaction of the content store.
use hootifactory.Prelude.{
  ℕ, suc, ◌+◌, ◌≡◌, ◌≢◌, refl, ap, subst, inl, inr, Bool, true, false, not, ◌&&◌, List, [], ◌∷◌,
  Option, none, some, arith, nat_eq, nat_beq_iff, ◌==◌, find_first, Bool-cases, Option-cases,
}
use hootifactory.Content.State.{
  active, BlobRow, BlobRef, Store, RepoContext, Result, ok, same_ref, update, update_same, >>-eq-ok,
}
use hootifactory.Content.Quota.{Delta, plus, adjust_storage_used, org_already_references_digest}
use hootifactory.Content.Blobs.{
  BlobPut, StoredBlob, RefInput, reactivated, ensured, ref_row, ensure_active_blob, insert_blob_ref,
  insert_counted, charge_created, increment_blob_ref_count, commit_blob_put,
  commit_uploaded_blob_ref,
}
use hootifactory.Content.Refs.{refs_to, DigestOk, Inv}

pub adjust-Inv :
    (s : Store) (org : ℕ) (delta : Delta) → Inv s → Inv (adjust_storage_used s org delta)
unfolding adjust_storage_used
adjust-Inv s org delta inv d = elim (Option-cases (s.quotas org)) [
  | inl free ↦ rw (free, adjust_storage_used) (inv d)
  | inr (q, found) ↦ rw (found, adjust_storage_used) (inv d)
]

-- A reference that the unique index finds again is counted.
found_counts :
    (ref : BlobRef) (refs : List BlobRef) (e : BlobRef)
    → find_first (same_ref ref) refs ≡ some e
    → refs_to ref.digest refs ≢ 0
found_counts ref [] e h = cc
found_counts ref (r ∷ rs) e h = ground (arith, found_counts ref rs e)

reactivated_lem :
    (b : BlobRow) → ((reactivated b).ref_count ≡ b.ref_count) × ((reactivated b).state ≡ active)
reactivated_lem b = ground arith

-- The row counts one reference more when one is inserted.
abbrev counted : BlobRow → BlobRow
counted b = record b { ref_count = b.ref_count + 1 }

inserted-DigestOk :
    (row : Option BlobRow) (size n : ℕ) (object : Bool)
    → object ≡ true
    → DigestOk row n object
    → DigestOk (some (counted (ensured row size))) (suc n) object
inserted-DigestOk none size n object o h = (ground arith, o, ground arith, ground arith)
inserted-DigestOk (some b) size n object o h =
    (ground (arith, reactivated_lem b), o, ground (arith, reactivated_lem b), ground arith)

kept-DigestOk :
    (row : Option BlobRow) (size n : ℕ) (object : Bool)
    → n ≢ 0
    → DigestOk row n object
    → DigestOk (some (ensured row size)) n object
kept-DigestOk none size n object o h = absurd (o h)
kept-DigestOk (some b) size n object o h =
    (ground (arith, reactivated_lem b), h.1, ground (arith, reactivated_lem b), λ z. absurd (o z))

pub insert_new :
    (s : Store) (ref : BlobRef)
    → find_first (same_ref ref) s.blob_refs ≡ none
    → insert_blob_ref s ref ≡ (ref.ref_id, true, record s { blob_refs = ref ∷ s.blob_refs })
unfolding insert_blob_ref
insert_new s ref e = rw (e, insert_blob_ref)

pub insert_old :
    (s : Store) (ref : BlobRef) {old : BlobRef}
    → find_first (same_ref ref) s.blob_refs ≡ some old
    → insert_blob_ref s ref ≡ (old.ref_id, false, s)
unfolding insert_blob_ref
insert_old s ref e = rw (e, insert_blob_ref)

increment_lem :
    (s : Store) (digest : ℕ) {b : BlobRow}
    → s.blobs digest ≡ some b
    → increment_blob_ref_count s digest
      ≡ record s { blobs = update s.blobs digest (some (counted b)) }
unfolding increment_blob_ref_count
increment_lem s digest e = rw (e, increment_blob_ref_count)

-- The insert of a reference behind the update of its blob's row.
module _ (s : Store) (size : ℕ) (ref : BlobRef) where
  unfoldable pub new_store : Store
  new_store =
      let row = ensured (s.blobs ref.digest) size in
      record s {
        blobs = update (update s.blobs ref.digest (some row)) ref.digest (some (counted row));
        blob_refs = ref ∷ s.blob_refs;
      }

  pub counted_new :
      find_first (same_ref ref) s.blob_refs ≡ none
      → insert_counted (ensure_active_blob s ref.digest size) ref.digest ref
        ≡ (ref.ref_id, true, new_store)
  unfolding new_store insert_counted ensure_active_blob
  counted_new e =
      let t = ensure_active_blob s ref.digest size in
      rw (insert_new t ref e) (
        ap (λ (u : Store). (ref.ref_id, true, u))
          (increment_lem (record t { blob_refs = ref ∷ s.blob_refs }) ref.digest
            (update_same s.blobs ref.digest (some (ensured (s.blobs ref.digest) size)))))

  pub counted_old :
      {old : BlobRef}
      → find_first (same_ref ref) s.blob_refs ≡ some old
      → insert_counted (ensure_active_blob s ref.digest size) ref.digest ref
        ≡ (old.ref_id, false, ensure_active_blob s ref.digest size)
  unfolding insert_counted ensure_active_blob
  counted_old e = rw (insert_old (ensure_active_blob s ref.digest size) ref e)

  itself : (ref.digest == ref.digest) ≡ true
  itself = (nat_beq_iff ref.digest ref.digest).1 refl

  new_store-Inv : Inv s → s.objects ref.digest ≡ true → Inv new_store
  unfolding new_store
  new_store-Inv inv o d = elim (Bool-cases (ref.digest == d)) [
    | inl same ↦
        subst
          (λ j. DigestOk (new_store.blobs j) (refs_to j new_store.blob_refs) (new_store.objects j))
          ((nat_beq_iff ref.digest d).0 same)
          (rw itself (
            inserted-DigestOk (s.blobs ref.digest) size (refs_to ref.digest s.blob_refs)
              (s.objects ref.digest) o (inv ref.digest)))
    | inr other ↦ rw other (inv d)
  ]

  ensured-Inv :
      Inv s → refs_to ref.digest s.blob_refs ≢ 0 → Inv (ensure_active_blob s ref.digest size)
  unfolding ensure_active_blob
  ensured-Inv inv some' d = elim (Bool-cases (ref.digest == d)) [
    | inl same ↦
        subst
          (λ j.
            DigestOk ((ensure_active_blob s ref.digest size).blobs j) (refs_to j s.blob_refs)
              (s.objects j))
          ((nat_beq_iff ref.digest d).0 same)
          (rw itself (
            kept-DigestOk (s.blobs ref.digest) size (refs_to ref.digest s.blob_refs)
              (s.objects ref.digest) some' (inv ref.digest)))
    | inr other ↦ rw other (inv d)
  ]

  pub counted-Inv :
      Inv s
      → s.objects ref.digest ≡ true
      → Inv (insert_counted (ensure_active_blob s ref.digest size) ref.digest ref).2
  counted-Inv inv o = elim (Option-cases (find_first (same_ref ref) s.blob_refs)) [
    | inl new ↦ rw (counted_new new) (new_store-Inv inv o)
    | inr (old, found) ↦
        rw (counted_old found) (ensured-Inv inv (found_counts ref s.blob_refs old found))
  ]

pub charge-Inv :
    (org size : ℕ) (charge : Bool) (r : ℕ × Bool × Store)
    → Inv r.2
    → Inv (charge_created org size charge r)
unfolding charge_created
charge-Inv org size charge r inv = elim (Bool-cases (r.1 && charge)) [
  | inl yes' ↦ rw yes' (adjust-Inv r.2 org (plus size) inv)
  | inr no' ↦ rw no' inv
]

pub pair_right {ℓ} :
    {A : Type ℓ} {a b : A} {s t : Store}
    → ◌≡◌ {A = Result (A × Store)} (ok (a, s)) (ok (b, t))
    → s ≡ t
pair_right h = cc

-- A commit keeps the invariant.
pub commit-Inv :
    (org_of : ℕ → ℕ) (s : Store) (ctx : RepoContext) (put : BlobPut) (input : RefInput)
    {stored : StoredBlob} {t : Store}
    → Inv s
    → commit_uploaded_blob_ref org_of s ctx put input ≡ ok (stored, t)
    → Inv t
unfolding commit_uploaded_blob_ref commit_blob_put
commit-Inv org_of s ctx put input inv h = elim (Bool-cases (s.objects put.digest)) [
  | inr gone ↦ absurd (cc (rw gone at h))
  | inl there ↦
      let charge = not (org_already_references_digest org_of s.blob_refs ctx.org_id put.digest) in
      let ref = ref_row ctx put.digest input in
      let e = pair_right (>>-eq-ok _ _ (rw there at h)).1 in
      subst Inv e (
        charge-Inv ctx.org_id put.size charge
          (insert_counted (ensure_active_blob s put.digest put.size) put.digest ref)
          (counted-Inv s put.size ref inv there))
]
