-- ===== src/Packages/Replace/Outcomes.antt =====
-- What `upsertPackageVersionWithBlobRef` (packages/registry-platform/src/packages/versions.ts)
-- leaves, whatever it returns.
use hootifactory.Prelude.{
  ℕ, ◌<◌, ◌≡◌, refl, ◌⊎◌, inl, inr, Bool, Option, none, some, ◌==◌, nat_eq, nat_beq_iff,
  if◌then◌else◌, find_first, Bool-cases, Option-cases,
}
use hootifactory.Content.State.{
  QuotaRow, Store, RepoContext, Error, Result, ok, err, ◌>>=◌, >>-eq-ok,
}
use hootifactory.Content.Quota.{
  plus, shifted, adjust_artifacts_used, assert_artifact_quota_row_allows,
}
use hootifactory.Content.Blobs.{BlobPut, RefInput, reclaim_unreferenced, discard_uncommitted}
use hootifactory.Content.Refs.{Inv, reclaim-Inv}
use hootifactory.Content.Lifecycle.{discard-Inv}
use hootifactory.Content.Accounting.{Charged, Sizes}
use hootifactory.Content.Accounting.Entries.{discard_rest, reclaim_rest, same-Charged}
use hootifactory.Content.Uploads.Staging.{bind_ok}
use hootifactory.Packages.{Registry, VersionInput, is_version, charges_artifact, charge_artifact}
use hootifactory.Packages.Replace.{
  Replaced, replaced, previous_input, replace_blob_ref, replace_present, replace_version,
  upsert_package_version_with_blob_ref,
}
use hootifactory.Packages.Replace.Exact.{replace-Books}

pub Result-cases :
    {A : Type 0} (r : Result A) → ((a : A) × (r ≡ ok a)) ⊎ ((e : Error) × (r ≡ err e))
Result-cases (ok a) = inl (a, refl)
Result-cases (err e) = inr (e, refl)

module _ (org_of : ℕ → ℕ) (size : ℕ → ℕ) (bound : ℕ) where
  -- Every digest with references has its blob, and every storage counter is exact.
  abbrev pub IsExact : Store → Type 0
  IsExact s = Inv s × Charged org_of size bound s

  artifact-IsExact :
      (s : Store) (org : ℕ) (charge : Bool) → IsExact s → IsExact (charge_artifact org charge s)
  unfolding charge_artifact adjust_artifacts_used
  artifact-IsExact s org charge (inv, charged) = elim (Bool-cases charge) [
    | inr free ↦ rw (free, charge_artifact) (inv, charged)
    | inl charges ↦ elim (Option-cases (s.quotas org)) [
      | inl missing ↦ rw (charges, charge_artifact, missing, adjust_artifacts_used) (inv, charged)
      | inr (q, found) ↦
          rw (charges, charge_artifact, found, adjust_artifacts_used)
            (
              inv,
              λ o r at. elim (Bool-cases (org == o)) [
                | inr other ↦ charged o r (rw other at at)
                | inl same ↦
                    let here : s.quotas o ≡ some q = rw (← (nat_beq_iff org o).0 same) found in
                    let new : QuotaRow = record q {
                      used_artifacts = shifted q.used_artifacts (plus 1);
                    } in
                    let f : some new ≡ some r = rw same at at in
                    let e : new ≡ r = cc f in rw (← e) (charged o q here)
              ],
            )
    ]
  ]

  -- A request that agrees with the database.
  pub record IsRequest (ctx : RepoContext) (put : BlobPut) (previous : Option ℕ) : Type 0 where
    pub own : org_of ctx.repo_id ≡ ctx.org_id
    pub below : put.digest < bound
    pub sized : put.size ≡ size put.digest
    pub previous_below : (d : ℕ) → previous ≡ some d → d < bound

  replaced-IsExact :
      (now : ℕ) (scanned : Bool) (ctx : RepoContext) (put : BlobPut) (input : RefInput)
      (previous : Option ℕ) (version : VersionInput) (s : Registry) (out : Replaced)
      → IsRequest ctx put previous
      → Sizes org_of size bound s.store.blobs
      → IsExact s.store
      → replace_version org_of now scanned ctx put input previous version s ≡ ok out
      → IsExact out.registry.store
  unfolding replace_version replace_present
  replaced-IsExact now scanned ctx put input previous version s out q sized (inv, charged) h =
      elim (Bool-cases (s.store.objects put.digest)) [
        | inr gone ↦ absurd (cc (rw gone at h))
        | inl there ↦
            let charge = charges_artifact (find_first (is_version version) s.versions) in
            let (passed, rest) =
              >>-eq-ok
                (if charge
                  then assert_artifact_quota_row_allows (s.store.quotas ctx.org_id) 1
                  else ok tt)
                (replace_blob_ref org_of now ctx put input previous s.store >>= λ content.
                  ok (replaced scanned ctx put previous version s content))
                (rw there at h) in
            let ((stored, t), done, e) =
              bind_ok (replace_blob_ref org_of now ctx put input previous s.store)
                (λ content. ok (replaced scanned ctx put previous version s content)) rest in
            let books =
              replace-Books org_of size bound now ctx put input previous s.store q.own q.below
                q.sized q.previous_below there inv sized charged done in
            let e' : replaced scanned ctx put previous version s (stored, t) ≡ out = cc e in
            rw (← e') (artifact-IsExact t ctx.org_id charge books)
      ]

  reclaimed-IsExact :
      (now grace digest : ℕ) (s : Store)
      → IsExact s
      → IsExact (reclaim_unreferenced now grace digest s).1
  reclaimed-IsExact now grace digest s (inv, charged) =
      let (refs, quotas) = reclaim_rest now grace digest s in
      (
        reclaim-Inv now grace digest s inv,
        same-Charged org_of size bound s (reclaim_unreferenced now grace digest s).1 refs quotas
            charged,
      )

  discarded-IsExact : (put : BlobPut) (s : Store) → IsExact s → IsExact (discard_uncommitted put s)
  discarded-IsExact put s (inv, charged) =
      let (blobs, refs, quotas) = discard_rest put s in
      (
        discard-Inv put s inv,
        same-Charged org_of size bound s (discard_uncommitted put s) refs quotas charged,
      )

  previous-IsRequest :
      (ctx : RepoContext) (put : BlobPut) (previous : Option ℕ)
      → IsRequest ctx put previous
      → IsRequest ctx put (previous_input previous put.digest)
  previous-IsRequest ctx put none q = q
  previous-IsRequest ctx put (some d) q = elim (Bool-cases (d == put.digest)) [
    | inr other ↦ rw other q
    | inl same ↦ rw same (record {
      own = q.own;
      below = q.below;
      sized = q.sized;
      previous_below = λ j h. absurd (let f : none ≡ some j = h in cc f);
    })
  ]

-- If every digest with references has its blob and every storage counter is the sum of the sizes of
-- the distinct digests that its organisation references, then so it is behind the upsert of a
-- version whose blob takes the place of an older one, whether it returns or fails.
pub upsert_with_blob_ref-IsExact :
    (org_of size : ℕ → ℕ) (bound now grace : ℕ) (scanned : Bool) (ctx : RepoContext) (put : BlobPut)
    (input : RefInput) (previous : Option ℕ) (version : VersionInput) (s : Registry)
    → IsRequest org_of size bound ctx put previous
    → Sizes org_of size bound s.store.blobs
    → IsExact org_of size bound s.store
    → IsExact org_of size bound
        (upsert_package_version_with_blob_ref org_of now grace scanned ctx put input previous
          version s).1.store
unfolding upsert_package_version_with_blob_ref
upsert_with_blob_ref-IsExact org_of size bound now grace scanned ctx put input previous version s q
      sized exact =
    let before = previous_input previous put.digest in
    elim (Result-cases (replace_version org_of now scanned ctx put input before version s)) [
      | inr (e, failed) ↦
          rw (failed, upsert_package_version_with_blob_ref)
            (discarded-IsExact org_of size bound put s.store exact)
      | inl (out, done) ↦
          let after =
            replaced-IsExact org_of size bound now scanned ctx put input before version s out
              (previous-IsRequest org_of size bound ctx put previous q) sized exact done in
          elim (Option-cases out.delete_cas) [
            | inl nothing ↦ rw (done, upsert_package_version_with_blob_ref, nothing) after
            | inr (d, gone) ↦
                rw (done, upsert_package_version_with_blob_ref, gone)
                  (reclaimed-IsExact org_of size bound now grace d out.registry.store after)
          ]
    ]
