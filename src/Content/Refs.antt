-- ===== src/Content/Refs.antt =====
-- Counting references, and what each transaction does to one digest.
use hootifactory.Prelude.{
  ℕ, suc, ◌+◌, ◌-◌, ◌≡◌, refl, inl, inr, Bool, true, false, not, List, [], ◌∷◌, Option, none, some,
  arith, nat_eq, nat_beq_iff, ◌==◌, if◌then◌else◌, keep, leb, Bool-cases, Option-cases,
}
use hootifactory.Content.State.{pending_delete, BlobRow, BlobRef, Store, update, update_same}
use hootifactory.Content.Blobs.{
  is_reclaimable, unreferenced, blob_refs_after_delete, after_deletes, delete_blob_refs,
  reclaim_unreferenced,
}

-- The number of references to a digest.
abbrev pub refs_to : ℕ → List BlobRef → ℕ
refs_to d [] = 0
refs_to d (r ∷ rs) = if r.digest == d then suc (refs_to d rs) else refs_to d rs

-- What is true of one digest between transactions: a row counts its references, has its object in
-- the blob store, and waits for deletion exactly when it has no reference; a digest with no row has
-- no reference.
abbrev pub DigestOk : Option BlobRow → ℕ → Bool → Type 0
DigestOk none refs object = refs ≡ 0
DigestOk (some b) refs object =
    (b.ref_count ≡ refs)
    × (object ≡ true)
    × (b.state ≡ pending_delete → refs ≡ 0)
    × (refs ≡ 0 → b.state ≡ pending_delete)

abbrev pub Inv : Store → Type 0
Inv s = (d : ℕ) → DigestOk (s.blobs d) (refs_to d s.blob_refs) (s.objects d)

pub refs_to-keep :
    (d : ℕ) (p : BlobRef → Bool) (refs : List BlobRef)
    → refs_to d refs ≡ refs_to d (keep p refs) + refs_to d (keep (λ r. not (p r)) refs)
refs_to-keep d p [] = refl
refs_to-keep d p (r ∷ rs) = ground (arith, refs_to-keep d p rs)

-- The trigger's row after one delete of a reference.
unreferenced-DigestOk :
    (now : ℕ) (b : BlobRow) (n : ℕ) (object : Bool)
    → DigestOk (some b) (suc n) object
    → DigestOk (some (unreferenced now b)) n object
unreferenced-DigestOk now b n object h = elim (Bool-cases (leb (b.ref_count - 1) 0)) [
  | inl last ↦ rw last (ground arith, ground arith, ground arith, ground arith)
  | inr more ↦ rw more (ground arith, ground arith, ground arith, ground arith)
]

trigger-DigestOk :
    (now : ℕ) (blobs : ℕ → Option BlobRow) (d n : ℕ) (object : Bool)
    → DigestOk (blobs d) (suc n) object
    → DigestOk (blob_refs_after_delete now blobs d d) n object
unfolding blob_refs_after_delete
trigger-DigestOk now blobs d n object h = elim (Option-cases (blobs d)) [
  | inl gone ↦ absurd (let z : suc n ≡ 0 = rw gone at h in omega arith)
  | inr (b, found) ↦
      rw (found, blob_refs_after_delete, update_same blobs d (some (unreferenced now b)))
        (unreferenced-DigestOk now b n object (rw found at h))
]

trigger_other :
    (now : ℕ) (blobs : ℕ → Option BlobRow) (c d : ℕ)
    → (c == d) ≡ false
    → blob_refs_after_delete now blobs c d ≡ blobs d
unfolding blob_refs_after_delete
trigger_other now blobs c d ne = ground arith

after_deletes-DigestOk :
    (now : ℕ) (blobs : ℕ → Option BlobRow) (refs : List BlobRef) (d n : ℕ) (object : Bool)
    → DigestOk (blobs d) (refs_to d refs + n) object
    → DigestOk (after_deletes now blobs refs d) n object
unfolding after_deletes
after_deletes-DigestOk now blobs [] d n object h = let e : 0 + n ≡ n = omega arith in rw e at h
after_deletes-DigestOk now blobs (r ∷ rs) d n object h =
    after_deletes-DigestOk now (blob_refs_after_delete now blobs r.digest) rs d n object
      (elim (Bool-cases (r.digest == d)) [
        | inl same ↦
            let e : r.digest ≡ d = (nat_beq_iff r.digest d).0 same in
            let k : refs_to d (r ∷ rs) + n ≡ suc (refs_to d rs + n) = ground arith in
            rw e (trigger-DigestOk now blobs d (refs_to d rs + n) object (rw k at h))
        | inr other ↦
            let k : refs_to d (r ∷ rs) + n ≡ refs_to d rs + n = ground arith in
            rw (trigger_other now blobs r.digest d other) (rw k at h)
      ])

-- A delete of references keeps every count.
pub delete_blob_refs-Inv :
    (now : ℕ) (p : BlobRef → Bool) (s : Store) → Inv s → Inv (delete_blob_refs now p s)
unfolding delete_blob_refs
delete_blob_refs-Inv now p s inv d =
    after_deletes-DigestOk now s.blobs (keep p s.blob_refs) d
      (refs_to d (keep (λ r. not (p r)) s.blob_refs)) (s.objects d)
      (rw (← refs_to-keep d p s.blob_refs) (inv d))

pub reclaimable_unreferenced :
    (now grace : ℕ) (b : BlobRow) (n : ℕ) (object : Bool)
    → is_reclaimable now grace b ≡ true
    → DigestOk (some b) n object
    → n ≡ 0
reclaimable_unreferenced now grace b n object h inv = ground arith

reclaimed-DigestOk :
    (digest : ℕ) (s : Store)
    → Inv s
    → refs_to digest s.blob_refs ≡ 0
    → (d : ℕ)
    → DigestOk
        (update s.blobs digest none d)
        (refs_to d s.blob_refs)
        (update s.objects digest false d)
reclaimed-DigestOk digest s inv free d = elim (Bool-cases (digest == d)) [
  | inl same ↦ rw same (rw ((nat_beq_iff digest d).0 same) at free)
  | inr other ↦ rw other (inv d)
]

-- Only a digest without references is reclaimed, and its row and object go together.
pub reclaim-Inv :
    (now grace digest : ℕ) (s : Store) → Inv s → Inv (reclaim_unreferenced now grace digest s).1
unfolding reclaim_unreferenced
reclaim-Inv now grace digest s inv d = elim (Option-cases (s.blobs digest)) [
  | inl gone ↦ rw (gone, reclaim_unreferenced) (inv d)
  | inr (b, found) ↦ elim (Bool-cases (is_reclaimable now grace b)) [
    | inr keep' ↦ rw (found, reclaim_unreferenced, keep') (inv d)
    | inl go ↦
        rw (found, reclaim_unreferenced, go)
          (reclaimed-DigestOk digest s inv
            (reclaimable_unreferenced now grace b (refs_to digest s.blob_refs) (s.objects digest) go
              (rw found at (inv digest)))
            d)
  ]
]
