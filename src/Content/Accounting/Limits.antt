-- ===== src/Content/Accounting/Limits.antt =====
-- The storage limit of packages/registry-platform/src/governance/quota.ts at a commit.
use hootifactory.Prelude.{
  ℕ, ◌+◌, ◌≤◌, ◌≡◌, refl, ap, subst, ◌∙◌, inl, inr, Bool, not, Option, some, arith, nat_eq,
  nat_beq_iff, if◌then◌else◌, ltb, Bool-cases, Option-cases, find_first,
}
use hootifactory.Content.State.{
  QuotaRow, Store, RepoContext, ok, err, quota_exceeded, >>-eq-ok, same_ref,
}
use hootifactory.Content.Quota.{
  plus, adjust_storage_used, assert_storage_quota_row_allows, org_already_references_digest,
}
use hootifactory.Content.Blobs.{
  BlobPut, StoredBlob, RefInput, ref_row, ensure_active_blob, insert_counted, charge_created,
  commit_blob_put, commit_uploaded_blob_ref,
}
use hootifactory.Content.Counts.{counted_new, counted_old, new_store, pair_right}

-- The limit is kept: a row that has one counts at most that much.
abbrev pub Within : Option QuotaRow → Type 0
Within row = (q : QuotaRow) (m : ℕ) → row ≡ some q → q.max_storage ≡ some m → q.used_storage ≤ m

some-quota : {q r : QuotaRow} → some q ≡ some r → q ≡ r
some-quota h = cc

room :
    (row : Option QuotaRow) (n : ℕ)
    → assert_storage_quota_row_allows row n ≡ ok tt
    → (q : QuotaRow) (m : ℕ) → row ≡ some q
    → q.max_storage ≡ some m
    → q.used_storage + n ≤ m
unfolding assert_storage_quota_row_allows
room row n allows q m at limit =
    let h : assert_storage_quota_row_allows (some q) n ≡ ok tt = rw at at allows in
    elim (Bool-cases (ltb m (q.used_storage + n))) [
      | inr fits ↦ ground arith
      | inl over ↦ absurd (
          let e : err quota_exceeded ≡ ok tt =
            rw (assert_storage_quota_row_allows, limit, over) at h in
          cc)
    ]

adjust-Within :
    (s : Store) (org n : ℕ)
    → assert_storage_quota_row_allows (s.quotas org) n ≡ ok tt
    → Within ((adjust_storage_used s org (plus n)).quotas org)
unfolding adjust_storage_used
adjust-Within s org n allows = elim (Option-cases (s.quotas org)) [
  | inl missing ↦ rw (missing, adjust_storage_used, missing) λ q m at limit. cc
  | inr (old, found) ↦
      rw (found, adjust_storage_used, (nat_beq_iff org org).1 refl)
        λ q m at limit.
          let e : record old { used_storage = old.used_storage + n } ≡ q = some-quota at in
          let l : old.max_storage ≡ some m = ap (λ (x : QuotaRow). x.max_storage) e ∙ limit in
          omega (
            arith,
            ap (λ (x : QuotaRow). x.used_storage) e,
            room (s.quotas org) n allows old m found l,
          )
]

charge-Within :
    (org n : ℕ) (charge : Bool) (r : ℕ × Bool × Store)
    → (if charge then assert_storage_quota_row_allows (r.2.quotas org) n else ok tt) ≡ ok tt
    → Within (r.2.quotas org)
    → Within ((charge_created org n charge r).quotas org)
unfolding charge_created
charge-Within org n charge r allows within = elim (Bool-cases charge) [
  | inr free ↦ elim (Bool-cases r.1) [
    | inl made ↦ rw (free, charge_created, made) within
    | inr found ↦ rw (free, charge_created, found) within
  ]
  | inl charged ↦ elim (Bool-cases r.1) [
    | inl made ↦ rw (charged, charge_created, made) (adjust-Within r.2 org n (rw charged at allows))
    | inr found ↦ rw (charged, charge_created, found) within
  ]
]

insert_quotas :
    (s : Store) (ctx : RepoContext) (put : BlobPut) (input : RefInput)
    → (insert_counted
        (ensure_active_blob s put.digest put.size)
        put.digest
        (ref_row ctx put.digest input)).2.quotas
      ≡ s.quotas
unfolding new_store ensure_active_blob
insert_quotas s ctx put input =
    let ref = ref_row ctx put.digest input in
    elim (Option-cases (find_first (same_ref ref) s.blob_refs)) [
      | inl new ↦ rw (counted_new s put.size ref new) refl
      | inr (old, found) ↦ rw (counted_old s put.size ref found) refl
    ]

-- A commit never takes an organisation over its storage limit: if the counter is within the limit
-- before, where there is one, then it is behind every commit that succeeds.
pub commit-Within :
    (org_of : ℕ → ℕ) (s : Store) (ctx : RepoContext) (put : BlobPut) (input : RefInput)
    (stored : StoredBlob) (t : Store)
    → Within (s.quotas ctx.org_id)
    → commit_uploaded_blob_ref org_of s ctx put input ≡ ok (stored, t)
    → Within (t.quotas ctx.org_id)
unfolding commit_uploaded_blob_ref commit_blob_put
commit-Within org_of s ctx put input stored t within h = elim (Bool-cases (s.objects put.digest)) [
  | inr gone ↦ absurd (cc (rw gone at h))
  | inl there ↦
      let charge = not (org_already_references_digest org_of s.blob_refs ctx.org_id put.digest) in
      let r =
        insert_counted (ensure_active_blob s put.digest put.size) put.digest
          (ref_row ctx put.digest input) in
      let (allows, done) = >>-eq-ok _ _ (rw there at h) in
      let e = pair_right done in
      let same : r.2.quotas ≡ s.quotas = insert_quotas s ctx put input in
      subst (λ (u : Store). Within (u.quotas ctx.org_id)) e
        (charge-Within ctx.org_id put.size charge r (rw same allows) (rw same within))
]
