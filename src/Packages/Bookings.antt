-- ===== src/Packages/Bookings.antt =====
-- What each transaction of packages/registry-platform/src/packages/versions.ts does to the artifact
-- counters and the live versions.
use hootifactory.Prelude.{
  ℕ, ◌+◌, ◌≡◌, refl, sym, ◌∙◌, inl, inr, Bool, true, false, not, ◌&&◌, List, ◌∷◌, Option, some,
  arith, ◌==◌, nat_eq, if◌then◌else◌, find_first, Bool-cases, Option-cases,
}
use hootifactory.Content.State.{Store, RepoContext, ok, >>-eq-ok}
use hootifactory.Content.Quota.{
  plus, minus, assert_artifact_quota_row_allows, adjust_artifacts_used,
}
use hootifactory.Content.Blobs.{
  BlobPut, discard_uncommitted, reclaim_unreferenced, StoredBlob, RefInput,
}
use hootifactory.Content.Uploads.Staging.{bind_ok}
use hootifactory.Packages.{
  VersionRow, Registry, VersionInput, Committed, is_version, version_row, write_version,
  charges_artifact, charge_artifact, upsert_package_version, create_package_version,
  commit_version_or_release_blob, deleted_count, mark_versions_deleted,
}
use hootifactory.Packages.Replace.{
  previous_input, replace_version, upsert_package_version_with_blob_ref,
}
use hootifactory.Packages.Replace.Outcomes.{Result-cases}
use hootifactory.Packages.Replace.Counting.{replaced_parts, artifacts_of-discard}
use hootifactory.Packages.Lookup.{ok_pair, with_version, upsert_ok}
use hootifactory.Packages.Artifacts.{
  live_of, Owned, live_of-write, write-Owned, delete-Owned, live_of-delete,
}
use hootifactory.Packages.Counter.{
  artifacts_of, artifacts_of-adjust, artifacts_of-reclaim, artifacts_of-release,
}

-- Each package belongs to one organisation; requests reach the packages of their own only.
module _ (owner : ℕ → ℕ) (org_of : ℕ → ℕ) where
  -- The counters count the live versions, and `extra` beside them.
  abbrev pub Counted : (ℕ → ℕ) → Store → List VersionRow → Type 0
  Counted extra s rows = (o n : ℕ) → artifacts_of s o ≡ some n → n ≡ live_of o rows + extra o

  abbrev pub IsBooked : (ℕ → ℕ) → Registry → Type 0
  IsBooked extra r = Owned owner r.versions × Counted extra r.store r.versions

  -- Whether the write of a version makes one live.
  abbrev pub makes_live : VersionInput → Registry → Bool
  makes_live input r = charges_artifact (find_first (is_version input) r.versions)

  charge-Counted :
      (extra extra' : ℕ → ℕ) (org : ℕ) (charge : Bool) (s : Store) (rows rows' : List VersionRow)
      → ((o : ℕ)
          → live_of o rows' + extra' o
            ≡ live_of o rows + extra o + (if charge && org == o then 1 else 0))
      → Counted extra s rows
      → Counted extra' (charge_artifact org charge s) rows'
  unfolding charge_artifact
  charge-Counted extra extra' org charge s rows rows' grown counted o n h =
      elim (Bool-cases charge) [
        | inr free ↦
            ground (arith, rw free at (grown o), counted o n (rw (free, charge_artifact) at h))
        | inl charged ↦
            let (m, before, e) =
              artifacts_of-adjust s org o (plus 1) n (rw (charged, charge_artifact) at h) in
            ground (arith, rw charged at (grown o), counted o m before)
      ]

  -- The write of a version, charged though it may make none live.
  write-charged :
      (extra extra' : ℕ → ℕ) (org : ℕ) (input : VersionInput) (charge : Bool) (r : Registry)
      → owner input.package_id ≡ org
      → (charge ≡ false → makes_live input r ≡ false)
      → ((o : ℕ)
          → extra' o
            ≡ extra o + (if (charge && not (makes_live input r)) && org == o then 1 else 0))
      → IsBooked extra r
      → IsBooked extra' (with_version org input charge r)
  write-charged extra extra' org input charge r mine locked more (own, counted) = (
    write-Owned owner org input r.versions mine own,
    charge-Counted extra extra' org charge r.store r.versions (write_version org input r.versions).1
        (λ o.
          let grown = live_of-write owner o org input r.versions own mine in
          ground (arith, more o, locked))
        counted,
  )

  write-IsBooked :
      (extra : ℕ → ℕ) (org : ℕ) (input : VersionInput) (r : Registry)
      → owner input.package_id ≡ org
      → IsBooked extra r
      → IsBooked extra (with_version org input (makes_live input r) r)
  write-IsBooked extra org input r mine booked =
      write-charged extra extra org input (makes_live input r) r mine (λ h. h) (λ o. ground arith)
        booked

  pub upsert-IsBooked :
      (extra : ℕ → ℕ) (org : ℕ) (input : VersionInput) (existing : Option VersionRow) (r : Registry)
      (id : ℕ) {t : Registry}
      → owner input.package_id ≡ org
      → (charges_artifact existing ≡ false → makes_live input r ≡ false)
      → upsert_package_version org input existing r ≡ ok (id, t)
      → IsBooked extra r
      → IsBooked
          (λ o.
            extra o
            + (if (charges_artifact existing && not (makes_live input r)) && org == o
                then 1
                else 0))
          t
  upsert-IsBooked extra org input existing r id mine locked h booked =
      let (passed, id_is, same) = upsert_ok org input existing r id h in
      rw (← same) (
        write-charged extra _ org input (charges_artifact existing) r mine locked (λ o. refl)
          booked)

  create-IsBooked :
      (extra : ℕ → ℕ) (org : ℕ) (input : VersionInput) (r : Registry) (id : Option ℕ) {t : Registry}
      → owner input.package_id ≡ org
      → create_package_version org input r ≡ ok (id, t)
      → IsBooked extra r
      → IsBooked extra t
  unfolding create_package_version write_version charge_artifact
  create-IsBooked extra org input r id {t} mine h booked =
      elim (Option-cases (find_first (is_version input) r.versions)) [
        | inr (row, taken) ↦
            let (id_is, same) = ok_pair (rw (taken, create_package_version) at h) in
            rw (← same) booked
        | inl free ↦
            let out =
              rw (free, write_version, charge_artifact) at
                (write-IsBooked extra org input r mine booked) in
            let (passed, e) =
              >>-eq-ok (assert_artifact_quota_row_allows (r.store.quotas org) 1)
                (ok (
                  some input.fresh_id,
                  record r {
                    versions = version_row org input ∷ r.versions;
                    store = adjust_artifacts_used r.store org (plus 1);
                  },
                ))
                (rw (free, create_package_version) at h) in
            rw (← (ok_pair e).1) out
      ]

  pub commit-IsBooked :
      (extra : ℕ → ℕ) (now grace : ℕ) (completes scanner : Bool) (more : List ℕ) (ctx : RepoContext)
      (stored : StoredBlob) (ref : RefInput) (input : VersionInput) (r : Registry) (c : Committed)
      {t : Registry}
      → owner input.package_id ≡ ctx.org_id
      → commit_version_or_release_blob org_of now grace completes scanner more ctx stored ref input
          r
        ≡ ok (c, t)
      → IsBooked extra r
      → IsBooked extra t
  unfolding commit_version_or_release_blob
  commit-IsBooked extra now grace completes scanner more ctx stored ref input r c {t} mine h
        booked =
      let ((id, m), made, e) = bind_ok (create_package_version ctx.org_id input r) _ h in
      let (own, counted) = create-IsBooked extra ctx.org_id input r id mine made booked in
      elim (Option-cases id) [
        | inr (version_id, was_made) ↦ elim (Bool-cases scanner) [
          | inl scans ↦ rw (← (ok_pair (rw (was_made, scans) at e)).1) (own, counted)
          | inr quiet ↦ rw (← (ok_pair (rw (was_made, quiet) at e)).1) (own, counted)
        ]
        | inl taken ↦ elim (Bool-cases stored.ref_created) [
          | inl created ↦ rw (← (ok_pair (rw (taken, created) at e)).1) (
            own,
            λ o n at. counted o n (
                sym
                  (artifacts_of-release org_of now grace completes m.store ctx stored.digest ref o)
                ∙ at),
          )
          | inr old ↦ rw (← (ok_pair (rw (taken, old) at e)).1) (own, counted)
        ]
      ]

  pub mark-IsBooked :
      (extra : ℕ → ℕ) (now : ℕ) (has_digest : ℕ → ℕ → Bool) (org package_id digest : ℕ)
      (r : Registry)
      → owner package_id ≡ org
      → IsBooked extra r
      → IsBooked extra (mark_versions_deleted now has_digest org package_id digest r).1
  unfolding mark_versions_deleted
  mark-IsBooked extra now has_digest org package_id digest r mine (own, counted) =
      let p : VersionRow → Bool =
        λ row. row.package_id == package_id && has_digest digest row.metadata in
      (
        delete-Owned owner now p r.versions own,
        λ o n h.
            let (m, before, e) =
              artifacts_of-adjust r.store org o (minus (deleted_count p r.versions)) n h in
            let only : (row : VersionRow) → p row ≡ true → owner row.package_id ≡ org =
              λ row y. (let q : row.package_id ≡ package_id = ground arith in rw q mine) in
            let lost = live_of-delete owner now org o p r.versions only own in
            ground (arith, lost, counted o m before),
      )

  -- A store with the same artifact counters.
  same-Counted :
      (extra : ℕ → ℕ) (s t : Store) (rows : List VersionRow)
      → ((o : ℕ) → artifacts_of t o ≡ artifacts_of s o)
      → Counted extra s rows
      → Counted extra t rows
  same-Counted extra s t rows same counted o n at = counted o n (sym (same o) ∙ at)

  pub replace-IsBooked :
      (extra : ℕ → ℕ) (now grace : ℕ) (scanned : Bool) (ctx : RepoContext) (put : BlobPut)
      (ref : RefInput) (previous : Option ℕ) (input : VersionInput) (r : Registry)
      → owner input.package_id ≡ ctx.org_id
      → IsBooked extra r
      → IsBooked extra
          (upsert_package_version_with_blob_ref org_of now grace scanned ctx put ref previous input
            r).1
  unfolding upsert_package_version_with_blob_ref
  replace-IsBooked extra now grace scanned ctx put ref previous input r mine (own, counted) =
      let before = previous_input previous put.digest in
      elim (Result-cases (replace_version org_of now scanned ctx put ref before input r)) [
        | inr (e, failed) ↦
            rw (failed, upsert_package_version_with_blob_ref)
              (
                own,
                same-Counted extra r.store (discard_uncommitted put r.store) r.versions
                    (artifacts_of-discard put r.store) counted,
              )
        | inl (out, done) ↦
            let (stored, t, e, same) =
              replaced_parts org_of now scanned ctx put ref before input r out done in
            let booked : IsBooked extra out.registry = rw (← e) (
              write-IsBooked extra ctx.org_id input (record r { store = t }) mine
                (own, same-Counted extra r.store t r.versions same counted)) in
            elim (Option-cases out.delete_cas) [
              | inl nothing ↦ rw (done, upsert_package_version_with_blob_ref, nothing) booked
              | inr (d, gone) ↦
                  rw (done, upsert_package_version_with_blob_ref, gone)
                    (
                      booked.0,
                      same-Counted extra out.registry.store
                          (reclaim_unreferenced now grace d out.registry.store).1
                          out.registry.versions
                          (artifacts_of-reclaim now grace d out.registry.store) booked.1,
                    )
            ]
      ]
