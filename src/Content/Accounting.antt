-- ===== src/Content/Accounting.antt =====
-- The storage counter of packages/registry-platform/src/governance/quota.ts against the references:
-- an organisation is charged the size of each digest that its repositories reference, once.
pub mod Sizes
pub mod Releases
pub mod Entries
pub mod Limits
use hootifactory.Prelude.{
  ℕ, zero, suc, ◌+◌, ◌-◌, ◌≤◌, ◌<◌, ◌≡◌, ◌≢◌, refl, sym, ap, subst, inl, inr, Bool, true, false,
  not, ◌&&◌, List, [], ◌∷◌, Option, none, some, arith, nat_eq, nat_beq_iff, ◌==◌, if◌then◌else◌,
  find_first, keep, Bool-cases, Option-cases,
}
use hootifactory.Content.State.{
  BlobRow, BlobRef, QuotaRow, Store, RepoContext, Result, ok, err, blob_unknown, same_ref, update,
  ◌>>=◌, ◌>>◌, >>-eq-ok,
}
use hootifactory.Content.Quota.{
  Delta, plus, minus, shifted, adjust_storage_used, org_already_references_digest,
  assert_storage_quota_row_allows,
}
use hootifactory.Content.Blobs.{
  BlobPut, StoredBlob, RefInput, ref_row, ensured, ensure_active_blob, insert_counted,
  insert_marked, mark_referenced, charge_created, commit_blob_put, commit_uploaded_blob_ref,
  ensure_blob_ref,
}
use hootifactory.Content.Counts.{
  counted_new, counted_old, new_store, insert_new, insert_old, pair_right,
}
use hootifactory.Content.Usage.{usage, usage_other_org, usage_cons}

module _ (org_of : ℕ → ℕ) (size : ℕ → ℕ) (bound : ℕ) where
  -- Every quota row counts what its organisation uses.
  abbrev pub Charged : Store → Type 0
  Charged s =
      (o : ℕ) (q : QuotaRow)
      → s.quotas o ≡ some q
      → q.used_storage ≡ usage org_of size bound s.blob_refs o

  -- Every row of a blob has the size of its digest.
  abbrev pub Sizes : (ℕ → Option BlobRow) → Type 0
  Sizes blobs = (d : ℕ) (b : BlobRow) → blobs d ≡ some b → b.size_bytes ≡ size d

  some-quota : {q r : QuotaRow} → some q ≡ some r → q ≡ r
  some-quota h = cc

  pub adjust-Charged :
      (s : Store) (org : ℕ) (delta : Delta)
      → ((o : ℕ) (q : QuotaRow)
          → s.quotas o ≡ some q
          → (if org == o then shifted q.used_storage delta else q.used_storage)
            ≡ usage org_of size bound s.blob_refs o)
      → Charged (adjust_storage_used s org delta)
  unfolding adjust_storage_used
  adjust-Charged s org delta h = elim (Option-cases (s.quotas org)) [
    | inl missing ↦
        rw (missing, adjust_storage_used)
          λ o q at. elim (Bool-cases (org == o)) [
            | inl same ↦
                let gone : s.quotas o ≡ none = rw (← (nat_beq_iff org o).0 same) missing in
                absurd (cc (gone, at))
            | inr other ↦ rw other at (h o q at)
          ]
    | inr (old, found) ↦
        rw (found, adjust_storage_used)
          λ o q at. elim (Bool-cases (org == o)) [
            | inr other ↦ rw other at (h o q (rw other at at))
            | inl same ↦
                let here : s.quotas o ≡ some old = rw (← (nat_beq_iff org o).0 same) found in
                let e : record old { used_storage = shifted old.used_storage delta } ≡ q =
                  some-quota (rw same at at) in
                rw (← e) (rw same at (h o old here))
          ]
  ]

  -- One more reference of the organisation `org`, with the charge if it is new to the digest.
  module _ (s t : Store) (ref : BlobRef) (n org : ℕ) (charged : Charged s)
      (refs : t.blob_refs ≡ ref ∷ s.blob_refs) (quotas : t.quotas ≡ s.quotas)
      (own : org_of ref.repository_id ≡ org) (below : ref.digest < bound)
      (sized : n ≡ size ref.digest) where
    abbrev already : Bool
    already = org_already_references_digest org_of s.blob_refs org ref.digest

    grown :
        (o : ℕ)
        → usage org_of size bound t.blob_refs o
          ≡ usage org_of size bound s.blob_refs o
            + (if org == o then (if already then 0 else n) else 0)
    grown o = elim (Bool-cases (org == o)) [
      | inl same ↦
          let e : org ≡ o = (nat_beq_iff org o).0 same in
          rw (same, refs, ← e, sized) (usage_cons org_of size bound ref s.blob_refs org own below)
      | inr other ↦
          rw (other, refs)
            (omega (arith, usage_other_org org_of size bound ref s.blob_refs o (rw own other)))
    ]

    pub charge-Charged : (id : ℕ) → Charged (charge_created org n (not already) (id, true, t))
    unfolding charge_created
    charge-Charged id = elim (Bool-cases already) [
      | inl old ↦
          rw (old, charge_created)
            λ o q at. ground (arith, rw old at (grown o), charged o q (rw quotas at at))
      | inr new ↦
          rw (new, charge_created)
            (adjust-Charged t org (plus n)
              λ o q at. ground (arith, rw new at (grown o), charged o q (rw quotas at at)))
    ]

  -- The reference that a commit asks for, new or found.
  counted-Charged :
      (s : Store) (ref : BlobRef) (n org : ℕ)
      → org_of ref.repository_id ≡ org
      → ref.digest < bound
      → n ≡ size ref.digest
      → Charged s
      → Charged (
          charge_created org n
            (not (org_already_references_digest org_of s.blob_refs org ref.digest))
            (insert_counted (ensure_active_blob s ref.digest n) ref.digest ref))
  unfolding new_store ensure_active_blob charge_created
  counted-Charged s ref n org own below sized charged =
      elim (Option-cases (find_first (same_ref ref) s.blob_refs)) [
        | inl new ↦ rw (counted_new s n ref new) (
            charge-Charged s (new_store s n ref) ref n org charged refl refl own below sized
              ref.ref_id)
        | inr (old, found) ↦ rw (counted_old s n ref found) charged
      ]

  -- The same for a blob that is already recorded.
  marked-Charged :
      (s : Store) (b : BlobRow) (ref : BlobRef) (org : ℕ)
      → org_of ref.repository_id ≡ org
      → ref.digest < bound
      → b.size_bytes ≡ size ref.digest
      → Charged s
      → Charged (
          charge_created org b.size_bytes
            (not (org_already_references_digest org_of s.blob_refs org ref.digest))
            (insert_marked s ref.digest b ref))
  unfolding insert_marked mark_referenced charge_created
  marked-Charged s b ref org own below sized charged =
      elim (Option-cases (find_first (same_ref ref) s.blob_refs)) [
        | inl new ↦
            let t = mark_referenced (record s { blob_refs = ref ∷ s.blob_refs }) ref.digest b in
            rw (insert_marked, insert_new s ref new)
              (charge-Charged s t ref b.size_bytes org charged refl refl own below sized ref.ref_id)
        | inr (old, found) ↦ rw (insert_marked, insert_old s ref found) charged
      ]

  pub commit-Charged :
      (s : Store) (ctx : RepoContext) (put : BlobPut) (input : RefInput) {stored : StoredBlob}
      {t : Store}
      → org_of ctx.repo_id ≡ ctx.org_id
      → put.digest < bound
      → put.size ≡ size put.digest
      → Charged s
      → commit_uploaded_blob_ref org_of s ctx put input ≡ ok (stored, t)
      → Charged t
  unfolding commit_uploaded_blob_ref commit_blob_put
  commit-Charged s ctx put input own below sized charged h =
      elim (Bool-cases (s.objects put.digest)) [
        | inr gone ↦ absurd (cc (rw gone at h))
        | inl there ↦
            let ref = ref_row ctx put.digest input in
            let e = pair_right (>>-eq-ok _ _ (rw there at h)).1 in
            subst Charged e (counted-Charged s ref put.size ctx.org_id own below sized charged)
      ]

  pub ensure-Charged :
      (s : Store) (ctx : RepoContext) (digest : ℕ) (input : RefInput) {stored : StoredBlob}
      {t : Store}
      → org_of ctx.repo_id ≡ ctx.org_id
      → digest < bound
      → Sizes s.blobs
      → Charged s
      → ensure_blob_ref org_of s ctx digest input ≡ ok (stored, t)
      → Charged t
  unfolding ensure_blob_ref
  ensure-Charged s ctx digest input own below sized charged h =
      elim (Option-cases (s.blobs digest)) [
        | inl gone ↦ absurd (cc (rw (gone, ensure_blob_ref) at h))
        | inr (b, found) ↦
            let e = pair_right (>>-eq-ok _ _ (rw (found, ensure_blob_ref) at h)).1 in
            subst Charged e (
              marked-Charged s b (ref_row ctx digest input) ctx.org_id own below
                (sized digest b found) charged)
      ]
