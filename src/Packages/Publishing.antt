-- ===== src/Packages/Publishing.antt =====
-- Publishing against the artifact quota: the transactions of
-- packages/registry-platform/src/packages/versions.ts in any order.
use hootifactory.Prelude.{
  ℕ, ◌+◌, ◌≡◌, refl, Bool, false, not, ◌&&◌, List, Option, some, arith, ◌==◌, nat_eq, if◌then◌else◌,
}
use hootifactory.Content.State.{QuotaRow, RepoContext, ok}
use hootifactory.Content.Blobs.{BlobPut, StoredBlob, RefInput}
use hootifactory.Packages.{
  VersionRow, Registry, VersionInput, Committed, charges_artifact, upsert_package_version,
  commit_version_or_release_blob, set_tag, mark_versions_deleted,
}
use hootifactory.Packages.Replace.{upsert_package_version_with_blob_ref}
use hootifactory.Packages.Artifacts.{live_of}
use hootifactory.Packages.Counter.{artifacts_of}
use hootifactory.Packages.Bookings.{
  IsBooked, makes_live, upsert-IsBooked, commit-IsBooked, mark-IsBooked, replace-IsBooked,
}

-- Each package belongs to one organisation; requests reach the packages of their own only.
module _ (owner : ℕ → ℕ) (org_of : ℕ → ℕ) where
  pub data PublishStep (r : Registry) : Registry → Type 0 where
    -- The lock of a row that the upsert's read found live keeps it live until the write.
    upserted :
        (org : ℕ) (input : VersionInput) (existing : Option VersionRow) (id : ℕ) {t : Registry}
        → owner input.package_id ≡ org
        → (charges_artifact existing ≡ false → makes_live owner org_of input r ≡ false)
        → upsert_package_version org input existing r ≡ ok (id, t)
        → PublishStep r t
    committed :
        (now grace : ℕ) (completes scanner : Bool) (extra : List ℕ) (ctx : RepoContext)
        (stored : StoredBlob) (ref : RefInput) (input : VersionInput) (c : Committed) {t : Registry}
        → owner input.package_id ≡ ctx.org_id
        → commit_version_or_release_blob org_of now grace completes scanner extra ctx stored ref
            input r
          ≡ ok (c, t)
        → PublishStep r t
    replaced :
        (now grace : ℕ) (scanned : Bool) (ctx : RepoContext) (put : BlobPut) (ref : RefInput)
        (previous : Option ℕ) (input : VersionInput)
        → owner input.package_id ≡ ctx.org_id
        → PublishStep r
            (upsert_package_version_with_blob_ref org_of now grace scanned ctx put ref previous
              input r).1
    marked :
        (now : ℕ) (has_digest : ℕ → ℕ → Bool) (org package_id digest : ℕ)
        → owner package_id ≡ org
        → PublishStep r (mark_versions_deleted now has_digest org package_id digest r).1
    tagged :
        (package_id tag version_id : ℕ)
        → PublishStep r (record r { tags = set_tag package_id tag version_id r.tags })

  pub data Published (r : Registry) : Registry → Type 0 where
    begin : Published r r
    then_step : {s t : Registry} → Published r s → PublishStep s t → Published r t

  -- The upserts of an organisation that charged a version which was live by the time of its write.
  abbrev pub charges_twice : ℕ → {r t : Registry} → PublishStep r t → ℕ
  charges_twice o {r} (upserted org input existing id mine locked done) =
      if (charges_artifact existing && not (makes_live owner org_of input r)) && org == o
      then 1
      else 0
  charges_twice o _ = 0

  abbrev pub double_charges : ℕ → {r t : Registry} → Published r t → ℕ
  double_charges o begin = 0
  double_charges o (then_step p s) = double_charges o p + charges_twice o s

  no-more :
      (extra : ℕ → ℕ) (r : Registry)
      → IsBooked owner org_of extra r
      → IsBooked owner org_of (λ o. extra o + 0) r
  no-more extra r (own, counted) = (own, λ o n h. omega (arith, counted o n h))

  step-IsBooked :
      (extra : ℕ → ℕ) {r t : Registry} (s : PublishStep r t)
      → IsBooked owner org_of extra r
      → IsBooked owner org_of (λ o. extra o + charges_twice o s) t
  step-IsBooked extra {r} (upserted org input existing id mine locked h) booked =
      upsert-IsBooked owner org_of extra org input existing r id mine locked h booked
  step-IsBooked extra {r} {t}
        (committed now grace completes scanner extra' ctx stored ref input c mine h) booked =
      no-more extra t (
        commit-IsBooked owner org_of extra now grace completes scanner extra' ctx stored ref input r
          c mine h booked)
  step-IsBooked extra {r} {t} (replaced now grace scanned ctx put ref previous input mine) booked =
      no-more extra t (
        replace-IsBooked owner org_of extra now grace scanned ctx put ref previous input r mine
          booked)
  step-IsBooked extra {r} {t} (marked now has_digest org package_id digest mine) booked =
      no-more extra t
        (mark-IsBooked owner org_of extra now has_digest org package_id digest r mine booked)
  step-IsBooked extra {r} {t} (tagged package_id tag version_id) booked = no-more extra t booked

  Published-IsBooked :
      {r t : Registry} (p : Published r t)
      → IsBooked owner org_of (λ o. 0) r
      → IsBooked owner org_of (λ o. double_charges o p) t
  Published-IsBooked begin booked = booked
  Published-IsBooked (then_step p step) booked =
      step-IsBooked (λ o. double_charges o p) step (Published-IsBooked p booked)

-- Versions belong to the organisation of their package, and requests reach the packages of their
-- own organisation only; a version that an upsert read as live is live at its write. If the
-- artifact counters count the live versions, then behind every sequence of upserts, with a blob or
-- without, commits, deletions by digest and tags, the counter of an organisation is the number of
-- its live versions and of the upserts without a blob that charged a version which another request
-- had made live between their read and their write.
pub artifact_counter_exact :
    (owner org_of : ℕ → ℕ) {r t : Registry}
    → IsBooked owner org_of (λ o. 0) r
    → (p : Published owner org_of r t) (org : ℕ) (q : QuotaRow) → t.store.quotas org ≡ some q
    → q.used_artifacts ≡ live_of org t.versions + double_charges owner org_of org p
unfolding artifacts_of
artifact_counter_exact owner org_of {t = t} booked p org q h =
    let (own, counted) = Published-IsBooked owner org_of p booked in
    counted org q.used_artifacts (rw (h, artifacts_of) refl)
