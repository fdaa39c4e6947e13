-- ===== src/Content/Lifecycle.antt =====
-- The invariant across every interleaving of uploads, commits, releases and garbage collection.
use hootifactory.Prelude.{
  ℕ, suc, ◌+◌, ◌≤◌, ◌≡◌, ◌≢◌, refl, subst, ◌∙◌, inl, inr, Bool, true, false, [], ◌∷◌, Option, none,
  some, arith, nat_eq, nat_beq_iff, ◌==◌, if◌then◌else◌, keep, find_first, Bool-cases, Option-cases,
  List-cases,
}
use hootifactory.Content.State.{
  BlobState, active, pending_delete, BlobRow, BlobRef, QuotaRow, Store, RepoContext, ok, same_ref,
  update, update_same, >>-eq-ok,
}
use hootifactory.Content.Quota.{minus, adjust_storage_used, org_already_references_digest}
use hootifactory.Content.Blobs.{
  BlobPut, StoredBlob, RefInput, ref_row, insert_marked, mark_referenced, delete_blob_refs,
  is_reclaimable, reclaim_unreferenced, discard_uncommitted, commit_uploaded_blob_ref,
  ensure_blob_ref, delete_and_refund,
}
use hootifactory.Content.Refs.{refs_to, DigestOk, Inv, delete_blob_refs-Inv, reclaim-Inv}
use hootifactory.Content.Counts.{
  adjust-Inv, charge-Inv, insert_new, insert_old, commit-Inv, pair_right,
}

marked-DigestOk :
    (b : BlobRow) (n : ℕ) (object : Bool)
    → DigestOk (some b) n object
    → DigestOk
        (some (record b { ref_count = b.ref_count + 1; state = active; pending_since = none }))
        (suc n)
        object
marked-DigestOk b n object h = (ground arith, h.1, λ e. cc, ground arith)

marked-Inv :
    (s : Store) (b : BlobRow) (ref : BlobRef)
    → Inv s
    → s.blobs ref.digest ≡ some b
    → Inv (insert_marked s ref.digest b ref).2
unfolding insert_marked mark_referenced
marked-Inv s b ref inv row = elim (Option-cases (find_first (same_ref ref) s.blob_refs)) [
  | inr (old, found) ↦ rw (insert_old s ref found) inv
  | inl new ↦ rw (insert_new s ref new) λ d. elim (Bool-cases (ref.digest == d)) [
    | inr other ↦ rw other (inv d)
    | inl same ↦
        let marked : BlobRow = record b {
          ref_count = b.ref_count + 1;
          state = active;
          pending_since = none;
        } in
        subst
          (λ j.
            DigestOk (update s.blobs ref.digest (some marked) j) (refs_to j (ref ∷ s.blob_refs))
              (s.objects j))
          ((nat_beq_iff ref.digest d).0 same)
          (rw ((nat_beq_iff ref.digest ref.digest).1 refl) (
            marked-DigestOk b (refs_to ref.digest s.blob_refs) (s.objects ref.digest)
              (rw row at (inv ref.digest))))
  ]
]

pub discard-Inv : (put : BlobPut) (s : Store) → Inv s → Inv (discard_uncommitted put s)
unfolding discard_uncommitted
discard-Inv put s inv d = elim (Bool-cases put.deduped) [
  | inl dup ↦ rw dup (inv d)
  | inr own ↦ elim (Option-cases (s.blobs put.digest)) [
    | inr (b, found) ↦ rw (own, discard_uncommitted, found) (inv d)
    | inl free ↦
        rw (own, discard_uncommitted, free)
          (elim (Bool-cases (put.digest == d)) [
            | inr other ↦ rw other (inv d)
            | inl same ↦
                let e : put.digest ≡ d = (nat_beq_iff put.digest d).0 same in
                let z : s.blobs d ≡ none = rw (← e) free in rw z (rw z at (inv d))
          ])
  ]
]

module _ (org_of : ℕ → ℕ) where
  ensure-Inv :
      (s : Store) (ctx : RepoContext) (digest : ℕ) (input : RefInput) {stored : StoredBlob}
      {t : Store}
      → Inv s
      → ensure_blob_ref org_of s ctx digest input ≡ ok (stored, t)
      → Inv t
  unfolding ensure_blob_ref
  ensure-Inv s ctx digest input {t = t} inv h = elim (Option-cases (s.blobs digest)) [
    | inl gone ↦ absurd (cc (rw (gone, ensure_blob_ref) at h))
    | inr (b, found) ↦
        let e = pair_right (>>-eq-ok _ _ (rw (found, ensure_blob_ref) at h)).1 in
        subst Inv e (
          charge-Inv ctx.org_id b.size_bytes _ _
            (marked-Inv s b (ref_row ctx digest input) inv found))
  ]

  -- The refund of a release leaves the rows alone.
  refund-Inv :
      (s : Store) (org digest size : ℕ)
      → Inv s
      → Inv (
          if org_already_references_digest org_of s.blob_refs org digest
          then s
          else adjust_storage_used s org (minus size))
  refund-Inv s org digest size inv =
      elim (Bool-cases (org_already_references_digest org_of s.blob_refs org digest)) [
        | inl still ↦ rw still inv
        | inr last ↦ rw last (adjust-Inv s org (minus size) inv)
      ]

  delete-Inv :
      (now : ℕ) (s : Store) (org digest : ℕ) (p : BlobRef → Bool)
      → Inv s
      → Inv (delete_and_refund org_of now s org digest p).1
  unfolding delete_and_refund
  delete-Inv now s org digest p inv = elim (List-cases (keep p s.blob_refs)) [
    | inl nothing ↦ rw (nothing, delete_and_refund) inv
    | inr (r, rs, deleted) ↦
        let s₁ = delete_blob_refs now p s in
        elim (Option-cases (s₁.blobs digest)) [
          | inl gone ↦ rw (deleted, delete_and_refund, gone) (delete_blob_refs-Inv now p s inv)
          | inr (b, found) ↦
              rw (deleted, delete_and_refund, found)
                (refund-Inv s₁ org digest b.size_bytes (delete_blob_refs-Inv now p s inv))
        ]
  ]

-- One transaction or blob-store call of some request or worker, at some time. The upload of a
-- blob and its commit are two steps, so others may come between them.
pub data Step (org_of : ℕ → ℕ) (s : Store) : Store → Type 0 where
  uploaded : (digest : ℕ) → Step org_of s (record s { objects = update s.objects digest true })
  committed :
      (ctx : RepoContext) (put : BlobPut) (input : RefInput) {stored : StoredBlob} {t : Store}
      → commit_uploaded_blob_ref org_of s ctx put input ≡ ok (stored, t)
      → Step org_of s t
  discarded : (put : BlobPut) → Step org_of s (discard_uncommitted put s)
  ensured :
      (ctx : RepoContext) (digest : ℕ) (input : RefInput) {stored : StoredBlob} {t : Store}
      → ensure_blob_ref org_of s ctx digest input ≡ ok (stored, t)
      → Step org_of s t
  deleted :
      (now org digest : ℕ) (p : BlobRef → Bool)
      → Step org_of s (delete_and_refund org_of now s org digest p).1
  reclaimed : (now grace digest : ℕ) → Step org_of s (reclaim_unreferenced now grace digest s).1

pub data Reach (org_of : ℕ → ℕ) (s : Store) : Store → Type 0 where
  here : Reach org_of s s
  next : {t u : Store} → Reach org_of s t → Step org_of t u → Reach org_of s u

upload-Inv :
    (digest : ℕ) (s : Store) → Inv s → Inv (record s { objects = update s.objects digest true })
upload-Inv digest s inv d = elim (Option-cases (s.blobs d)) [
  | inl free ↦ rw free (rw free at (inv d))
  | inr (b, found) ↦ let h = rw found at (inv d) in rw found (h.0, ground arith, h.2, h.3)
]

Step-Inv : {org_of : ℕ → ℕ} {s t : Store} → Step org_of s t → Inv s → Inv t
Step-Inv {s = s} (uploaded digest) inv = upload-Inv digest s inv
Step-Inv {org_of} {s} (committed ctx put input h) inv = commit-Inv org_of s ctx put input inv h
Step-Inv {s = s} (discarded put) inv = discard-Inv put s inv
Step-Inv {org_of} {s} (ensured ctx digest input h) inv = ensure-Inv org_of s ctx digest input inv h
Step-Inv {org_of} {s} (deleted now org digest p) inv = delete-Inv org_of now s org digest p inv
Step-Inv {s = s} (reclaimed now grace digest) inv = reclaim-Inv now grace digest s inv

pub Reach-Inv : {org_of : ℕ → ℕ} {s t : Store} → Reach org_of s t → Inv s → Inv t
Reach-Inv here inv = inv
Reach-Inv (next r st) inv = Step-Inv st (Reach-Inv r inv)

-- However uploads, commits, releases and garbage collection interleave, a digest that some
-- reference names keeps its row, with the exact number of its references and not marked for
-- deletion, and keeps its object in the blob store.
pub referenced_survives :
    {org_of : ℕ → ℕ} {s t : Store}
    → Reach org_of s t
    → Inv s
    → (d : ℕ) → refs_to d t.blob_refs ≢ 0
    → (b : BlobRow) × (t.blobs d ≡ some b)
      × (b.ref_count ≡ refs_to d t.blob_refs)
      × (b.state ≡ active)
      × (t.objects d ≡ true)
referenced_survives {t = t} r inv d ne =
    let at_end : Inv t = Reach-Inv r inv in
    elim (Option-cases (t.blobs d)) [
      | inl gone ↦ absurd (ne (rw gone at (at_end d)))
      | inr (b, found) ↦
          let h = rw found at (at_end d) in (b, found, h.0, live b.state (λ e. ne (h.2 e)), h.1)
    ]
  where
    live : (st : BlobState) → st ≢ pending_delete → st ≡ active
    live active no' = refl
    live pending_delete no' = absurd (no' refl)

-- A store that has just been migrated.
abbrev pub empty_store : (ℕ → Option QuotaRow) → Store
empty_store quotas = record {
  blobs = λ d. none;
  blob_refs = [];
  quotas = quotas;
  objects = λ d. false;
}

pub empty-Inv : (quotas : ℕ → Option QuotaRow) → Inv (empty_store quotas)
empty-Inv quotas d = refl

due :
    (now grace : ℕ) (b : BlobRow)
    → b.state ≡ pending_delete
    → b.ref_count ≡ 0
    → ((since : ℕ) → b.pending_since ≡ some since → since + grace ≤ now)
    → is_reclaimable now grace b ≡ true
due now grace b pending zero' old = elim (Option-cases b.pending_since) [
  | inl unset ↦ ground arith
  | inr (since, set) ↦ ground (arith, old since set)
]

reclaim_due :
    (now grace d : ℕ) (s : Store) (b : BlobRow)
    → s.blobs d ≡ some b
    → is_reclaimable now grace b ≡ true
    → ((reclaim_unreferenced now grace d s).0 ≡ true)
      × ((reclaim_unreferenced now grace d s).1.blobs d ≡ none)
      × ((reclaim_unreferenced now grace d s).1.objects d ≡ false)
unfolding reclaim_unreferenced
reclaim_due now grace d s b found go =
    rw (found, reclaim_unreferenced, go)
      (refl, update_same s.blobs d none, update_same s.objects d false)

-- However uploads, commits, releases and garbage collection interleave, a blob without references
-- is marked for deletion, and a sweep of its digest after its grace removes its row and its object.
pub unreferenced_reclaimed :
    {org_of : ℕ → ℕ} {s t : Store}
    → Reach org_of s t
    → Inv s
    → (now grace d : ℕ) (b : BlobRow) → t.blobs d ≡ some b
    → refs_to d t.blob_refs ≡ 0
    → ((since : ℕ) → b.pending_since ≡ some since → since + grace ≤ now)
    → (b.state ≡ pending_delete)
      × ((reclaim_unreferenced now grace d t).0 ≡ true)
      × ((reclaim_unreferenced now grace d t).1.blobs d ≡ none)
      × ((reclaim_unreferenced now grace d t).1.objects d ≡ false)
unreferenced_reclaimed {t = t} r inv now grace d b found free old =
    let at_end : Inv t = Reach-Inv r inv in
    let h : DigestOk (some b) (refs_to d t.blob_refs) (t.objects d) = rw found at (at_end d) in
    let pending = h.3 free in
    let gone = reclaim_due now grace d t b found (due now grace b pending (h.0 ∙ free) old) in
    (pending, gone.0, gone.1, gone.2)
