-- ===== src/Content/Accounting/Releases.antt =====
-- The refunds of packages/registry-platform/src/content/blobs.ts, and the storage counter along
-- every sequence of transactions.
use hootifactory.Prelude.{
  ℕ, ◌+◌, ◌<◌, ◌≡◌, ◌≢◌, sym, inl, inr, Bool, true, List, [], ◌∷◌, Option, none, some, arith,
  nat_eq, nat_beq_iff, ◌==◌, if◌then◌else◌, keep, Bool-cases, Option-cases, List-cases,
}
use hootifactory.Content.State.{BlobRow, BlobRef, QuotaRow, Store}
use hootifactory.Content.Quota.{minus, adjust_storage_used, org_already_references_digest}
use hootifactory.Content.Blobs.{
  blob_refs_after_delete, after_deletes, delete_blob_refs, delete_and_refund,
}
use hootifactory.Content.Refs.{refs_to, Inv}
use hootifactory.Content.Usage.{usage, usage-left, usage-left_other}
use hootifactory.Content.Accounting.{Charged, Sizes, adjust-Charged}
use hootifactory.Content.Accounting.Sizes.{after_deletes-Sizes, adjust-Sizes}

-- A row stays through the trigger.
trigger_keeps :
    (now : ℕ) (blobs : ℕ → Option BlobRow) (c d : ℕ)
    → blobs d ≢ none
    → blob_refs_after_delete now blobs c d ≢ none
unfolding blob_refs_after_delete
trigger_keeps now blobs c d there = elim (Option-cases (blobs c)) [
  | inl gone ↦ rw (gone, blob_refs_after_delete) there
  | inr (b, found) ↦
      rw (found, blob_refs_after_delete)
        (elim (Bool-cases (c == d)) [ inl same ↦ rw same (λ e. cc) | inr other ↦ rw other there ])
]

after_deletes_keep :
    (now : ℕ) (blobs : ℕ → Option BlobRow) (refs : List BlobRef) (d : ℕ)
    → blobs d ≢ none
    → after_deletes now blobs refs d ≢ none
unfolding after_deletes
after_deletes_keep now blobs [] d there = there
after_deletes_keep now blobs (r ∷ rs) d there =
    after_deletes_keep now (blob_refs_after_delete now blobs r.digest) rs d
      (trigger_keeps now blobs r.digest d there)

module _ (org_of : ℕ → ℕ) (size : ℕ → ℕ) (bound : ℕ) where
  -- The deletes that the code makes: references of one organisation to one digest.
  unfoldable pub Takes : ℕ → ℕ → (BlobRef → Bool) → Type 0
  Takes org d p = (r : BlobRef) → p r ≡ true → (r.digest ≡ d) × (org_of r.repository_id ≡ org)

  -- What the store's books say, between transactions.
  pub record Books (s : Store) : Type 0 where
    pub counts : Inv s
    pub sizes : Sizes org_of size bound s.blobs
    pub charges : Charged org_of size bound s

  taken_counts :
      (org d : ℕ) (p : BlobRef → Bool) (refs : List BlobRef) (r : BlobRef) (rs : List BlobRef)
      → Takes org d p
      → keep p refs ≡ r ∷ rs
      → refs_to d refs ≢ 0
  unfolding Takes
  taken_counts org d p [] r rs takes h = cc
  taken_counts org d p (x ∷ xs) r rs takes h = elim (Bool-cases (p x)) [
    | inl goes ↦ ground (arith, takes x goes)
    | inr stays ↦ ground (arith, taken_counts org d p xs r rs takes (rw stays at h))
  ]

  row_left :
      (now : ℕ) (s : Store) (org d : ℕ) (p : BlobRef → Bool) (r : BlobRef) (rs : List BlobRef)
      → Inv s
      → Takes org d p
      → keep p s.blob_refs ≡ r ∷ rs
      → (delete_blob_refs now p s).blobs d ≢ none
  unfolding delete_blob_refs
  row_left now s org d p r rs inv takes h =
      after_deletes_keep now s.blobs (keep p s.blob_refs) d
        λ gone. taken_counts org d p s.blob_refs r rs takes h (rw gone at (inv d))

  -- The counter behind the delete, before the refund.
  module _ (now : ℕ) (s : Store) (org d : ℕ) (p : BlobRef → Bool) (r : BlobRef) (rs : List BlobRef)
      (takes : Takes org d p) (h : keep p s.blob_refs ≡ r ∷ rs) (below : d < bound)
      (charged : Charged org_of size bound s) where
    abbrev still : Bool
    still = org_already_references_digest org_of (delete_blob_refs now p s).blob_refs org d

    shrunk :
        (o : ℕ) (q : QuotaRow)
        → (delete_blob_refs now p s).quotas o ≡ some q
        → q.used_storage
          ≡ usage org_of size bound (delete_blob_refs now p s).blob_refs o
            + (if org == o then (if still then 0 else size d) else 0)
    unfolding delete_blob_refs Takes
    shrunk o q at = elim (Bool-cases (org == o)) [
      | inl same ↦
          let e : org ≡ o = (nat_beq_iff org o).0 same in
          rw (same, charged o q at, ← e)
            (sym (usage-left org_of size bound p org d takes s.blob_refs r rs h below))
      | inr other ↦
          rw (other, charged o q at)
            (omega (arith, usage-left_other org_of size bound p org d takes s.blob_refs o other))
    ]

    refund-Charged :
        (n : ℕ)
        → n ≡ size d
        → Charged org_of size bound (
            if still
            then delete_blob_refs now p s
            else adjust_storage_used (delete_blob_refs now p s) org (minus n))
    refund-Charged n e = elim (Bool-cases still) [
      | inl more ↦ rw more λ o q at. ground (arith, rw more at (shrunk o q at))
      | inr last ↦ rw last (
          adjust-Charged org_of size bound (delete_blob_refs now p s) org (minus n)
            λ o q at. ground (arith, rw last at (shrunk o q at)))
    ]

  deleted-Sizes :
      (now : ℕ) (p : BlobRef → Bool) (s : Store)
      → Sizes org_of size bound s.blobs
      → Sizes org_of size bound (delete_blob_refs now p s).blobs
  unfolding delete_blob_refs
  deleted-Sizes now p s all =
      after_deletes-Sizes org_of size bound now s.blobs (keep p s.blob_refs) all

  pub delete-Charged :
      (now : ℕ) (s : Store) (org d : ℕ) (p : BlobRef → Bool)
      → d < bound
      → Takes org d p
      → Books s
      → Charged org_of size bound (delete_and_refund org_of now s org d p).1
  unfolding delete_and_refund
  delete-Charged now s org d p below takes books = elim (List-cases (keep p s.blob_refs)) [
    | inl nothing ↦ rw (nothing, delete_and_refund) books.charges
    | inr (r, rs, deleted) ↦
        let s₁ = delete_blob_refs now p s in
        elim (Option-cases (s₁.blobs d)) [
          | inl gone ↦ absurd (row_left now s org d p r rs books.counts takes deleted gone)
          | inr (b, found) ↦
              rw (deleted, delete_and_refund, found)
                (refund-Charged now s org d p r rs takes deleted below books.charges b.size_bytes
                  (deleted-Sizes now p s books.sizes d b found))
        ]
  ]

  pub delete-Sizes :
      (now : ℕ) (s : Store) (org d : ℕ) (p : BlobRef → Bool)
      → Sizes org_of size bound s.blobs
      → Sizes org_of size bound (delete_and_refund org_of now s org d p).1.blobs
  unfolding delete_and_refund
  delete-Sizes now s org d p all = elim (List-cases (keep p s.blob_refs)) [
    | inl nothing ↦ rw (nothing, delete_and_refund) all
    | inr (r, rs, deleted) ↦
        let s₁ = delete_blob_refs now p s in
        let after : Sizes org_of size bound s₁.blobs = deleted-Sizes now p s all in
        elim (Option-cases (s₁.blobs d)) [
          | inl gone ↦ rw (deleted, delete_and_refund, gone) after
          | inr (b, found) ↦
              elim (Bool-cases (org_already_references_digest org_of s₁.blob_refs org d)) [
                | inl more ↦ rw (deleted, delete_and_refund, found, more) after
                | inr last ↦
                    rw (deleted, delete_and_refund, found, last)
                      (adjust-Sizes org_of size bound s₁ org (minus b.size_bytes) after)
              ]
        ]
  ]
