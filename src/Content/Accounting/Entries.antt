-- ===== src/Content/Accounting/Entries.antt =====
-- The storage counter along every sequence of the transactions of
-- packages/registry-platform/src/content/blobs.ts.
use hootifactory.Prelude.{
  ℕ, ◌<◌, ◌≡◌, refl, sym, subst, ◌∙◌, arith, inl, inr, Bool, true, Option, some, nat_eq, Bool-cases,
  Option-cases,
}
use hootifactory.Content.State.{BlobRef, QuotaRow, Store, RepoContext, ok, update, same_ref}
use hootifactory.Content.Blobs.{
  BlobPut, StoredBlob, RefInput, discard_uncommitted, reclaim_unreferenced, is_reclaimable,
  commit_uploaded_blob_ref, ensure_blob_ref, delete_and_refund, ref_row, repo_digest,
}
use hootifactory.Content.Lifecycle
use hootifactory.Content.Usage.{usage, usage_nil}
use hootifactory.Content.Accounting.{Charged, Sizes, commit-Charged, ensure-Charged}
use hootifactory.Content.Accounting.Sizes.{commit-Sizes, ensure-Sizes, reclaim-Sizes}
use hootifactory.Content.Accounting.Releases.{Takes, Books, delete-Charged, delete-Sizes}

-- A discard changes the objects only, and a reclaim neither references nor quotas.
pub discard_rest :
    (put : BlobPut) (s : Store)
    → ((discard_uncommitted put s).blobs ≡ s.blobs)
      × ((discard_uncommitted put s).blob_refs ≡ s.blob_refs)
      × ((discard_uncommitted put s).quotas ≡ s.quotas)
unfolding discard_uncommitted
discard_rest put s = elim (Bool-cases put.deduped) [
  | inl dup ↦ rw (dup, discard_uncommitted) (refl, refl, refl)
  | inr own ↦ elim (Option-cases (s.blobs put.digest)) [
    | inl free ↦ rw (own, discard_uncommitted, free) (refl, refl, refl)
    | inr (b, found) ↦ rw (own, discard_uncommitted, found) (refl, refl, refl)
  ]
]

pub reclaim_rest :
    (now grace digest : ℕ) (s : Store)
    → ((reclaim_unreferenced now grace digest s).1.blob_refs ≡ s.blob_refs)
      × ((reclaim_unreferenced now grace digest s).1.quotas ≡ s.quotas)
unfolding reclaim_unreferenced
reclaim_rest now grace digest s = elim (Option-cases (s.blobs digest)) [
  | inl gone ↦ rw (gone, reclaim_unreferenced) (refl, refl)
  | inr (b, found) ↦ elim (Bool-cases (is_reclaimable now grace b)) [
    | inr stay ↦ rw (found, reclaim_unreferenced, stay) (refl, refl)
    | inl go ↦ rw (found, reclaim_unreferenced, go) (refl, refl)
  ]
]

module _ (org_of : ℕ → ℕ) (size : ℕ → ℕ) (bound : ℕ) where
  pub same-Charged :
      (s t : Store)
      → t.blob_refs ≡ s.blob_refs
      → t.quotas ≡ s.quotas
      → Charged org_of size bound s
      → Charged org_of size bound t
  same-Charged s t refs quotas charged o q at = rw refs (charged o q (rw quotas at at))

  -- The transactions on requests that agree with the database: a repository belongs to the
  -- organisation of its context, and a blob has the size of its digest.
  pub data Entry (s : Store) : Store → Type 0 where
    committed :
        (ctx : RepoContext) (put : BlobPut) (input : RefInput) {stored : StoredBlob} {t : Store}
        → org_of ctx.repo_id ≡ ctx.org_id
        → put.digest < bound
        → put.size ≡ size put.digest
        → commit_uploaded_blob_ref org_of s ctx put input ≡ ok (stored, t)
        → Entry s t
    ensured :
        (ctx : RepoContext) (digest : ℕ) (input : RefInput) {stored : StoredBlob} {t : Store}
        → org_of ctx.repo_id ≡ ctx.org_id
        → digest < bound
        → ensure_blob_ref org_of s ctx digest input ≡ ok (stored, t)
        → Entry s t
    released :
        (now org digest : ℕ) (p : BlobRef → Bool)
        → digest < bound
        → Takes org_of size bound org digest p
        → Entry s (delete_and_refund org_of now s org digest p).1
    uploaded : (digest : ℕ) → Entry s (record s { objects = update s.objects digest true })
    discarded : (put : BlobPut) → Entry s (discard_uncommitted put s)
    reclaimed : (now grace digest : ℕ) → Entry s (reclaim_unreferenced now grace digest s).1

  pub data Entries (s : Store) : Store → Type 0 where
    none_yet : Entries s s
    then_entry : {t u : Store} → Entries s t → Entry t u → Entries s u

  as_step : {s t : Store} → Entry s t → Lifecycle.Step org_of s t
  as_step (committed ctx put input own below sized h) = Lifecycle.committed ctx put input h
  as_step (ensured ctx digest input own below h) = Lifecycle.ensured ctx digest input h
  as_step (released now org digest p below takes) = Lifecycle.deleted now org digest p
  as_step (uploaded digest) = Lifecycle.uploaded digest
  as_step (discarded put) = Lifecycle.discarded put
  as_step (reclaimed now grace digest) = Lifecycle.reclaimed now grace digest

  entry-Sizes :
      {s t : Store} → Entry s t → Sizes org_of size bound s.blobs → Sizes org_of size bound t.blobs
  entry-Sizes {s} (committed ctx put input own below sized h) all =
      commit-Sizes org_of size bound s ctx put input sized all h
  entry-Sizes {s} (ensured ctx digest input own below h) all =
      ensure-Sizes org_of size bound s ctx digest input all h
  entry-Sizes {s} (released now org digest p below takes) all =
      delete-Sizes org_of size bound now s org digest p all
  entry-Sizes (uploaded digest) all = all
  entry-Sizes {s} (discarded put) all =
      subst (Sizes org_of size bound) (sym (discard_rest put s).0) all
  entry-Sizes {s} (reclaimed now grace digest) all =
      reclaim-Sizes org_of size bound now grace digest s all

  entry-Charged :
      {s t : Store} → Entry s t → Books org_of size bound s → Charged org_of size bound t
  entry-Charged {s} (committed ctx put input own below sized h) books =
      commit-Charged org_of size bound s ctx put input own below sized books.charges h
  entry-Charged {s} (ensured ctx digest input own below h) books =
      ensure-Charged org_of size bound s ctx digest input own below books.sizes books.charges h
  entry-Charged {s} (released now org digest p below takes) books =
      delete-Charged org_of size bound now s org digest p below takes books
  entry-Charged (uploaded digest) books = books.charges
  entry-Charged {s} (discarded put) books =
      same-Charged s (discard_uncommitted put s) (discard_rest put s).1 (discard_rest put s).2
        books.charges
  entry-Charged {s} (reclaimed now grace digest) books =
      same-Charged s (reclaim_unreferenced now grace digest s).1 (reclaim_rest now grace digest s).0
        (reclaim_rest now grace digest s).1 books.charges

  entry-Books : {s t : Store} → Entry s t → Books org_of size bound s → Books org_of size bound t
  entry-Books e books = record {
    counts = Lifecycle.Reach-Inv (Lifecycle.next Lifecycle.here (as_step e)) books.counts;
    sizes = entry-Sizes e books.sizes;
    charges = entry-Charged e books;
  }

  pub Entries-Books :
      {s t : Store} → Entries s t → Books org_of size bound s → Books org_of size bound t
  Entries-Books none_yet books = books
  Entries-Books (then_entry es e) books = entry-Books e (Entries-Books es books)

-- A store without blobs, whose counters are zero.
pub empty-Books :
    (org_of size : ℕ → ℕ) (bound : ℕ) (quotas : ℕ → Option QuotaRow)
    → ((o : ℕ) (q : QuotaRow) → quotas o ≡ some q → q.used_storage ≡ 0)
    → Books org_of size bound (Lifecycle.empty_store quotas)
empty-Books org_of size bound quotas zero' = record {
  counts = Lifecycle.empty-Inv quotas;
  sizes = λ d b at. cc;
  charges = λ o q at. zero' o q at ∙ sym (usage_nil org_of size bound o);
}

-- The deletes of `releaseBlobRef` and of `releaseRepoDigestTx` take references of one repository to
-- one digest.
same_ref-Takes :
    (org_of size : ℕ → ℕ) (bound : ℕ) (ctx : RepoContext) (digest : ℕ) (input : RefInput)
    → org_of ctx.repo_id ≡ ctx.org_id
    → Takes org_of size bound ctx.org_id digest (same_ref (ref_row ctx digest input))
unfolding Takes
same_ref-Takes org_of size bound ctx digest input own r hit = ground arith

repo_digest-Takes :
    (org_of size : ℕ → ℕ) (bound : ℕ) (ctx : RepoContext) (digest : ℕ)
    → org_of ctx.repo_id ≡ ctx.org_id
    → Takes org_of size bound ctx.org_id digest (repo_digest org_of ctx.repo_id digest)
unfolding Takes
repo_digest-Takes org_of size bound ctx digest own r hit = ground arith

-- The storage counter is exact: after any commits, references, releases, discards and reclaims on
-- requests that agree with the database, from a store whose books agree, the counter of each quota
-- row is the sum of the sizes of the distinct digests that the organisation's repositories
-- reference.
pub storage_counter_exact :
    (org_of size : ℕ → ℕ) (bound : ℕ) {s t : Store}
    → Entries org_of size bound s t
    → Books org_of size bound s
    → (o : ℕ) (q : QuotaRow) → t.quotas o ≡ some q
    → q.used_storage ≡ usage org_of size bound t.blob_refs o
storage_counter_exact org_of size bound es books o q at =
    (Entries-Books org_of size bound es books).charges o q at
