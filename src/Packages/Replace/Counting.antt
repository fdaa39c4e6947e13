-- ===== src/Packages/Replace/Counting.antt =====
-- The artifact counter behind `upsertPackageVersionWithBlobRef`
-- (packages/registry-platform/src/packages/versions.ts): the content store's part leaves it alone.
use hootifactory.Prelude.{
  ℕ, ◌≡◌, refl, ◌∙◌, inl, inr, Bool, Option, none, some, ◌==◌, nat_eq, if◌then◌else◌, ltb,
  find_first, Bool-cases, Option-cases, ◌-◌,
}
use hootifactory.Content.State.{BlobRef, Store, RepoContext, ok, ◌>>=◌, >>-eq-ok, same_ref}
use hootifactory.Content.Quota.{
  assert_storage_quota_row_allows, assert_artifact_quota_row_allows, adjust_storage_used,
}
use hootifactory.Content.Blobs.{
  BlobPut, StoredBlob, RefInput, ref_row, ensure_active_blob, insert_counted, stored_blob,
  delete_blob_refs, discard_uncommitted,
}
use hootifactory.Content.Counts.{counted_new, counted_old, new_store}
use hootifactory.Content.Accounting.Entries.{discard_rest}
use hootifactory.Content.Uploads.Staging.{bind_ok}
use hootifactory.Packages.{Registry, VersionInput, is_version, charges_artifact}
use hootifactory.Packages.Counter.{artifacts_of, artifacts_of-storage}
use hootifactory.Packages.Lookup.{ok_pair}
use hootifactory.Packages.Replace.{
  Replaced, replaced, net_delta, drop_previous, charge_for, replace_blob_ref, replace_present,
  replace_version,
}

artifacts_of-quotas :
    (s t : Store) (o : ℕ) → t.quotas ≡ s.quotas → artifacts_of t o ≡ artifacts_of s o
unfolding artifacts_of
artifacts_of-quotas s t o h = rw h refl

pub artifacts_of-discard :
    (put : BlobPut) (s : Store) (o : ℕ)
    → artifacts_of (discard_uncommitted put s) o ≡ artifacts_of s o
artifacts_of-discard put s o =
    artifacts_of-quotas s (discard_uncommitted put s) o (discard_rest put s).2

counted-quotas :
    (s : Store) (n : ℕ) (ref : BlobRef)
    → (insert_counted (ensure_active_blob s ref.digest n) ref.digest ref).2.quotas ≡ s.quotas
unfolding new_store ensure_active_blob
counted-quotas s n ref = elim (Option-cases (find_first (same_ref ref) s.blob_refs)) [
  | inl new ↦ rw (counted_new s n ref new) refl
  | inr (old, found) ↦ rw (counted_old s n ref found) refl
]

module _ (org_of : ℕ → ℕ) where
  drop-quotas :
      (now : ℕ) (ctx : RepoContext) (input : RefInput) (previous : Option ℕ) (s : Store)
      → (drop_previous org_of now ctx input previous s).1.quotas ≡ s.quotas
  unfolding drop_previous delete_blob_refs
  drop-quotas now ctx input none s = refl
  drop-quotas now ctx input (some d) s = refl

  replace-artifacts_of :
      (now : ℕ) (ctx : RepoContext) (put : BlobPut) (input : RefInput) (previous : Option ℕ)
      (s : Store) {stored : StoredBlob} {t : Store} (o : ℕ)
      → replace_blob_ref org_of now ctx put input previous s ≡ ok (stored, t)
      → artifacts_of t o ≡ artifacts_of s o
  unfolding replace_blob_ref
  replace-artifacts_of now ctx put input previous s {stored} {t} o h =
      let dropped = drop_previous org_of now ctx input previous s in
      let ref = ref_row ctx put.digest input in
      let r = insert_counted (ensure_active_blob dropped.1 put.digest put.size) put.digest ref in
      let charge = charge_for org_of ctx put r.1 dropped.1 in
      let same : artifacts_of r.2 o ≡ artifacts_of s o =
        artifacts_of-quotas s r.2 o
          (counted-quotas dropped.1 put.size ref ∙ drop-quotas now ctx input previous s) in
      let after : Store =
        if charge == dropped.0
        then r.2
        else adjust_storage_used r.2 ctx.org_id (net_delta charge dropped.0) in
      let kept : artifacts_of after o ≡ artifacts_of s o = elim (Bool-cases (charge == dropped.0)) [
        | inl even ↦ rw even same
        | inr uneven ↦
            rw uneven (artifacts_of-storage r.2 ctx.org_id o (net_delta charge dropped.0) ∙ same)
      ] in
      let (passed, e) =
        >>-eq-ok
          (if ltb dropped.0 charge
            then assert_storage_quota_row_allows (s.quotas ctx.org_id) (charge - dropped.0)
            else ok tt)
          (ok (stored_blob put.digest put.size put.deduped r, after)) h in
      let b : after ≡ t = (ok_pair e).1 in rw (← b) kept

  -- A version that was replaced: its part on the content store, then the write and the charge.
  pub replaced_parts :
      (now : ℕ) (scanned : Bool) (ctx : RepoContext) (put : BlobPut) (input : RefInput)
      (previous : Option ℕ) (version : VersionInput) (s : Registry) (out : Replaced)
      → replace_version org_of now scanned ctx put input previous version s ≡ ok out
      → (stored : StoredBlob) × (t : Store) × (replaced scanned ctx put previous version s
            (stored, t)
          ≡ out)
        × ((o : ℕ) → artifacts_of t o ≡ artifacts_of s.store o)
  unfolding replace_version replace_present
  replaced_parts now scanned ctx put input previous version s out h =
      elim (Bool-cases (s.store.objects put.digest)) [
        | inr gone ↦ absurd (cc (rw gone at h))
        | inl there ↦
            let charge = charges_artifact (find_first (is_version version) s.versions) in
            let (passed, rest) =
              >>-eq-ok
                (if charge
                  then assert_artifact_quota_row_allows (s.store.quotas ctx.org_id) 1
                  else ok tt)
                (replace_blob_ref org_of now ctx put input previous s.store >>= λ content.
                  ok (replaced scanned ctx put previous version s content))
                (rw there at h) in
            let ((stored, t), done, e) =
              bind_ok (replace_blob_ref org_of now ctx put input previous s.store)
                (λ content. ok (replaced scanned ctx put previous version s content)) rest in
            (stored, t, cc e, λ o. replace-artifacts_of now ctx put input previous s.store o done)
      ]
