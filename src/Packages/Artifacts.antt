-- ===== src/Packages/Artifacts.antt =====
-- The artifact counter of packages/registry-platform/src/governance/quota.ts against the rows of
-- `package_versions`.
use hootifactory.Prelude.{
  ℕ, ◌+◌, ◌≡◌, sym, ◌∙◌, inl, inr, Bool, true, ◌&&◌, List, [], ◌∷◌, some, arith, ◌==◌, nat_eq,
  if◌then◌else◌, length, keep, find_first, is_some, All, Bool-cases, Option-cases,
}
use hootifactory.Packages.{
  VersionRow, VersionInput, is_live, is_version, update_version, write_version, charges_artifact,
  delete_versions, deleted_count,
}

-- How many live versions an organisation has.
abbrev pub live_of : ℕ → List VersionRow → ℕ
live_of org_id rows = length (keep (λ row. is_live row && row.org_id == org_id) rows)

-- Every version belongs to the organisation of its package.
abbrev pub Owned : (ℕ → ℕ) → List VersionRow → Type 0
Owned owner rows = All (λ row. row.org_id ≡ owner row.package_id) rows

found-Owned :
    (owner : ℕ → ℕ) (input : VersionInput) (rows : List VersionRow) (row : VersionRow)
    → Owned owner rows
    → find_first (is_version input) rows ≡ some row
    → row.org_id ≡ owner input.package_id
found-Owned owner input [] row own h = cc
found-Owned owner input (r ∷ rows) row (o, own) h = elim (Bool-cases (is_version input r)) [
  | inr other ↦ found-Owned owner input rows row own (rw other at h)
  | inl same ↦
      let e : r ≡ row = (let f : some r ≡ some row = rw same at h in cc) in
      let p : r.package_id ≡ input.package_id = ground arith in rw (← e, ← p) o
]

live_of-update :
    (input : VersionInput) (rows : List VersionRow) (row : VersionRow) (org_id : ℕ)
    → find_first (is_version input) rows ≡ some row
    → live_of org_id (update_version input rows)
      ≡ live_of org_id rows + (if is_some row.deleted_at && row.org_id == org_id then 1 else 0)
unfolding update_version
live_of-update input [] row o h = cc
live_of-update input (r ∷ rows) row o h = elim (Bool-cases (is_version input r)) [
  | inl same ↦
      let e : r ≡ row = (let f : some r ≡ some row = rw same at h in cc) in
      rw (same, ← e) (ground arith)
  | inr other ↦ rw other (ground (arith, live_of-update input rows row o (rw other at h)))
]

-- The write of a version counts one more, if it is charged.
pub live_of-write :
    (owner : ℕ → ℕ) (org input_org : ℕ) (input : VersionInput) (rows : List VersionRow)
    → Owned owner rows
    → owner input.package_id ≡ input_org
    → live_of org (write_version input_org input rows).1
      ≡ live_of org rows
        + (if charges_artifact (find_first (is_version input) rows) && input_org == org
            then 1
            else 0)
unfolding write_version
live_of-write owner o org input rows own mine =
    elim (Option-cases (find_first (is_version input) rows)) [
      | inl missing ↦ rw (missing, write_version) (ground arith)
      | inr (row, found) ↦
          let e : row.org_id ≡ org = found-Owned owner input rows row own found ∙ mine in
          rw (found, write_version, ← e) (live_of-update input rows row o found)
    ]

update-Owned :
    (owner : ℕ → ℕ) (input : VersionInput) (rows : List VersionRow)
    → Owned owner rows
    → Owned owner (update_version input rows)
unfolding update_version
update-Owned owner input [] own = own
update-Owned owner input (r ∷ rows) (o, own) = elim (Bool-cases (is_version input r)) [
  | inl same ↦ rw same (o, own)
  | inr other ↦ rw other (o, update-Owned owner input rows own)
]

pub write-Owned :
    (owner : ℕ → ℕ) (org : ℕ) (input : VersionInput) (rows : List VersionRow)
    → owner input.package_id ≡ org
    → Owned owner rows
    → Owned owner (write_version org input rows).1
unfolding write_version
write-Owned owner org input rows mine own =
    elim (Option-cases (find_first (is_version input) rows)) [
      | inl missing ↦ rw (missing, write_version) (sym mine, own)
      | inr (row, found) ↦ rw (found, write_version) (update-Owned owner input rows own)
    ]

pub delete-Owned :
    (owner : ℕ → ℕ) (now : ℕ) (p : VersionRow → Bool) (rows : List VersionRow)
    → Owned owner rows
    → Owned owner (delete_versions now p rows)
unfolding delete_versions
delete-Owned owner now p [] own = own
delete-Owned owner now p (r ∷ rows) (o, own) = elim (Bool-cases (is_live r && p r)) [
  | inl gone ↦ rw gone (o, delete-Owned owner now p rows own)
  | inr stays ↦ rw stays (o, delete-Owned owner now p rows own)
]

-- What is deleted of one organisation's packages is what the counter loses.
pub live_of-delete :
    (owner : ℕ → ℕ) (now org o : ℕ) (p : VersionRow → Bool) (rows : List VersionRow)
    → ((row : VersionRow) → p row ≡ true → owner row.package_id ≡ org)
    → Owned owner rows
    → live_of o (delete_versions now p rows) + (if org == o then deleted_count p rows else 0)
      ≡ live_of o rows
unfolding delete_versions
live_of-delete owner now org o p [] only own = ground arith
live_of-delete owner now org o p (r ∷ rows) only (mine, own) =
    elim (Bool-cases (is_live r && p r)) [
      | inl gone ↦
          let e : r.org_id ≡ org = mine ∙ only r (ground arith) in
          rw (gone, e) (ground (arith, live_of-delete owner now org o p rows only own))
      | inr stays ↦ rw stays (ground (arith, live_of-delete owner now org o p rows only own))
    ]
