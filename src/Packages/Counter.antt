-- ===== src/Packages/Counter.antt =====
-- The artifact counter of a quota row (packages/registry-platform/src/governance/quota.ts).
use hootifactory.Prelude.{
  ℕ, ◌≡◌, refl, sym, ◌∙◌, inl, inr, Bool, true, false, List-cases, Option, none, some, ◌==◌, nat_eq,
  nat_beq_iff, if◌then◌else◌, keep, Bool-cases, Option-cases,
}
use hootifactory.Content.State.{BlobRef, Store, RepoContext, same_ref}
use hootifactory.Content.Quota.{
  Delta, minus, shifted, adjust_artifacts_used, adjust_storage_used, org_already_references_digest,
}
use hootifactory.Content.Blobs.{
  RefInput, ref_row, delete_and_refund, reclaim_unreferenced, release_blob_ref, is_reclaimable,
  delete_blob_refs,
}

-- The counter of an organisation that has a quota row.
unfoldable pub artifacts_of : Store → ℕ → Option ℕ
artifacts_of s org_id = elim (s.quotas org_id) [ none ↦ none | some q ↦ some q.used_artifacts ]

pub artifacts_of-adjust :
    (s : Store) (org o : ℕ) (delta : Delta) (n : ℕ)
    → artifacts_of (adjust_artifacts_used s org delta) o ≡ some n
    → (m : ℕ) × (artifacts_of s o ≡ some m) × (n ≡ (if org == o then shifted m delta else m))
unfolding adjust_artifacts_used artifacts_of
artifacts_of-adjust s org o delta n h = elim (Option-cases (s.quotas org)) [
  | inl missing ↦
      let h' : artifacts_of s o ≡ some n = rw (missing, adjust_artifacts_used) at h in
      elim (Bool-cases (org == o)) [
        | inr other ↦ (n, h', rw other refl)
        | inl same ↦
            let at : s.quotas o ≡ none = rw (← (nat_beq_iff org o).0 same) missing in
            absurd (let f : none ≡ some n = rw (at, artifacts_of) at h' in cc)
      ]
  | inr (q, found) ↦ elim (Bool-cases (org == o)) [
    | inr other ↦ (n, rw (found, adjust_artifacts_used, artifacts_of, other) at h, rw other refl)
    | inl same ↦
        let at : s.quotas o ≡ some q = rw (← (nat_beq_iff org o).0 same) found in
        let k : some (shifted q.used_artifacts delta) ≡ some n =
          rw (found, adjust_artifacts_used, artifacts_of, same) at h in
        (q.used_artifacts, rw (at, artifacts_of) refl, rw same (sym (let f = k in cc)))
  ]
]

pub artifacts_of-storage :
    (s : Store) (org o : ℕ) (delta : Delta)
    → artifacts_of (adjust_storage_used s org delta) o ≡ artifacts_of s o
unfolding adjust_storage_used artifacts_of
artifacts_of-storage s org o delta = elim (Option-cases (s.quotas org)) [
  | inl missing ↦ rw (missing, adjust_storage_used) refl
  | inr (q, found) ↦ elim (Bool-cases (org == o)) [
    | inr other ↦ rw (found, adjust_storage_used, artifacts_of, other) refl
    | inl same ↦
        let at : s.quotas o ≡ some q = rw (← (nat_beq_iff org o).0 same) found in
        rw (found, adjust_storage_used, artifacts_of, same, at) refl
  ]
]

pub artifacts_of-reclaim :
    (now grace digest : ℕ) (s : Store) (o : ℕ)
    → artifacts_of (reclaim_unreferenced now grace digest s).1 o ≡ artifacts_of s o
unfolding reclaim_unreferenced artifacts_of
artifacts_of-reclaim now grace digest s o = elim (Option-cases (s.blobs digest)) [
  | inl missing ↦ rw (missing, reclaim_unreferenced) refl
  | inr (b, found) ↦ elim (Bool-cases (is_reclaimable now grace b)) [
    | inl gone ↦ rw (found, reclaim_unreferenced, gone) refl
    | inr kept ↦ rw (found, reclaim_unreferenced, kept) refl
  ]
]

artifacts_of-refund :
    (org_of : ℕ → ℕ) (now : ℕ) (s : Store) (org digest o : ℕ) (p : BlobRef → Bool)
    → artifacts_of (delete_and_refund org_of now s org digest p).1 o ≡ artifacts_of s o
unfolding delete_and_refund artifacts_of delete_blob_refs
artifacts_of-refund org_of now s org digest o p = elim (List-cases (keep p s.blob_refs)) [
  | inl nothing ↦ rw (nothing, delete_and_refund) refl
  | inr (x, xs, deleted) ↦
      let s₁ = delete_blob_refs now p s in
      let same : artifacts_of s₁ o ≡ artifacts_of s o = refl in
      elim (Option-cases (s₁.blobs digest)) [
        | inl gone ↦ rw (deleted, delete_and_refund, gone) same
        | inr (b, found) ↦
            elim (Bool-cases (org_already_references_digest org_of s₁.blob_refs org digest)) [
              | inl still ↦ rw (deleted, delete_and_refund, found, still) same
              | inr free ↦
                  rw (deleted, delete_and_refund, found, free)
                    (artifacts_of-storage s₁ org o (minus b.size_bytes) ∙ same)
            ]
      ]
]

-- The release of a reference leaves the artifact counter alone.
pub artifacts_of-release :
    (org_of : ℕ → ℕ) (now grace : ℕ) (completes : Bool) (s : Store) (ctx : RepoContext) (digest : ℕ)
    (input : RefInput) (o : ℕ)
    → artifacts_of (release_blob_ref org_of now grace completes s ctx digest input) o
      ≡ artifacts_of s o
unfolding release_blob_ref
artifacts_of-release org_of now grace false s ctx digest input o = refl
artifacts_of-release org_of now grace true s ctx digest input o =
    let p = same_ref (ref_row ctx digest input) in
    let r = delete_and_refund org_of now s ctx.org_id digest p in
    let out = artifacts_of-refund org_of now s ctx.org_id digest o p in
    elim (Option-cases r.0) [
      | inl kept ↦ rw (kept, release_blob_ref) out
      | inr (b, gone) ↦
          rw (gone, release_blob_ref) (artifacts_of-reclaim now grace digest r.1 o ∙ out)
    ]
