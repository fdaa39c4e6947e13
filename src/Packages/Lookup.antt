-- ===== src/Packages/Lookup.antt =====
-- What a publish leaves to be found: versions by their key, tags by their name
-- (packages/registry-platform/src/packages/versions.ts).
use hootifactory.Prelude.{
  ℕ, ◌≡◌, refl, inl, inr, Bool, true, false, ◌&&◌, List, [], ◌∷◌, Option, none, some, arith, ◌==◌,
  nat_eq, if◌then◌else◌, find_first, Bool-cases, Option-cases,
}
use hootifactory.Content.State.{Result, ok, >>-eq-ok}
use hootifactory.Content.Quota.{assert_artifact_quota_row_allows}
use hootifactory.Packages.{
  VersionRow, TagRow, Registry, VersionInput, is_version, version_row, conflict_update,
  update_version, write_version, charges_artifact, charge_artifact, upsert_package_version, set_tag,
}

-- The row holds what the input says, and it is live.
abbrev pub Holds : VersionInput → ℕ → Option VersionRow → Type 0
Holds input id found =
    (row : VersionRow) × (found ≡ some row)
    × (row.version_id ≡ id)
    × (row.metadata ≡ input.metadata)
    × (row.size_bytes ≡ input.size_bytes)
    × (row.deleted_at ≡ none)

abbrev pub same_key : VersionInput → VersionInput → Bool
same_key a b = a.package_id == b.package_id && a.version == b.version

update-Holds :
    (input : VersionInput) (rows : List VersionRow) (row : VersionRow)
    → find_first (is_version input) rows ≡ some row
    → Holds input row.version_id (find_first (is_version input) (update_version input rows))
unfolding update_version
update-Holds input [] row h = absurd (let f : none ≡ some row = h in cc)
update-Holds input (r ∷ rows) row h = elim (Bool-cases (is_version input r)) [
  | inl same ↦
      let e : r ≡ row = (let f : some r ≡ some row = rw same at h in cc) in
      rw (same, ← e, same) (conflict_update input r, refl, refl, refl, refl, refl)
  | inr other ↦ rw (other, other) (update-Holds input rows row (rw other at h))
]

write-Holds :
    (org : ℕ) (input : VersionInput) (rows : List VersionRow)
    → Holds input
        (write_version org input rows).0
        (find_first (is_version input) (write_version org input rows).1)
unfolding write_version
write-Holds org input rows = elim (Option-cases (find_first (is_version input) rows)) [
  | inl missing ↦
      let here : is_version input (version_row org input) ≡ true = ground arith in
      rw (missing, write_version, here) (version_row org input, refl, refl, refl, refl, refl)
  | inr (row, found) ↦ rw (found, write_version) (update-Holds input rows row found)
]

apart :
    (a b : VersionInput) (row : VersionRow)
    → same_key a b ≡ false
    → is_version a row ≡ true
    → is_version b row ≡ false
apart a b row ne y = ground arith

update_apart :
    (a b : VersionInput) (rows : List VersionRow)
    → same_key a b ≡ false
    → find_first (is_version b) (update_version a rows) ≡ find_first (is_version b) rows
unfolding update_version
update_apart a b [] ne = refl
update_apart a b (r ∷ rows) ne = elim (Bool-cases (is_version a r)) [
  | inl same ↦ rw (same, apart a b r ne same) refl
  | inr other ↦ rw other (elim (Bool-cases (is_version b r)) [
    | inl here ↦ rw here refl
    | inr there ↦ rw there (update_apart a b rows ne)
  ])
]

write_apart :
    (org : ℕ) (a b : VersionInput) (rows : List VersionRow)
    → same_key a b ≡ false
    → find_first (is_version b) (write_version org a rows).1 ≡ find_first (is_version b) rows
unfolding write_version
write_apart org a b rows ne = elim (Option-cases (find_first (is_version a) rows)) [
  | inl missing ↦
      let no' : is_version b (version_row org a) ≡ false = ground arith in
      rw (missing, write_version, no') refl
  | inr (row, found) ↦ rw (found, write_version) (update_apart a b rows ne)
]

pub ok_pair :
    {A B : Type 0} {a b : A} {c d : B}
    → ◌≡◌ {A = Result (A × B)} (ok (a, c)) (ok (b, d))
    → (a ≡ b) × (c ≡ d)
ok_pair h = (cc, cc)

-- The registry behind the write of a version, charged or not.
abbrev pub with_version : ℕ → VersionInput → Bool → Registry → Registry
with_version org input charge r = record r {
  versions = (write_version org input r.versions).1;
  store = charge_artifact org charge r.store;
}

abbrev pub quota_check : ℕ → Bool → Registry → Result (Unit {0})
quota_check org charge r =
    if charge then assert_artifact_quota_row_allows (r.store.quotas org) 1 else ok tt

pub upsert_ok :
    (org : ℕ) (input : VersionInput) (existing : Option VersionRow) (r : Registry) (id : ℕ)
    {t : Registry}
    → upsert_package_version org input existing r ≡ ok (id, t)
    → (quota_check org (charges_artifact existing) r ≡ ok tt)
      × ((write_version org input r.versions).0 ≡ id)
      × (with_version org input (charges_artifact existing) r ≡ t)
unfolding upsert_package_version
upsert_ok org input existing r id {t} h =
    let charge = charges_artifact existing in
    let (passed, e) =
      >>-eq-ok (quota_check org charge r)
        (ok ((write_version org input r.versions).0, with_version org input charge r)) h in
    (passed, (ok_pair e).0, (ok_pair e).1)

-- A version that was upserted is found under its key with the id that the upsert returned, live,
-- with the metadata and the size it was given, whatever the upsert's first statement read; under
-- any other key is found what was there.
pub upsert_then_found :
    (org : ℕ) (input other : VersionInput) (existing : Option VersionRow) (r : Registry) (id : ℕ)
    {t : Registry}
    → upsert_package_version org input existing r ≡ ok (id, t)
    → same_key input other ≡ false
    → Holds input id (find_first (is_version input) t.versions)
      × (find_first (is_version other) t.versions ≡ find_first (is_version other) r.versions)
upsert_then_found org input other existing r id {t} h ne =
    let (passed, id_is, same) = upsert_ok org input existing r id h in
    rw (← same, ← id_is)
      (write-Holds org input r.versions, write_apart org input other r.versions ne)

abbrev pub is_tag : ℕ → ℕ → TagRow → Bool
is_tag package_id tag row = row.package_id == package_id && row.tag == tag

-- A tag that was set names its version, and every other tag names what it named.
pub set_tag_then_found :
    (package_id tag version_id : ℕ) (rows : List TagRow)
    → ((row : TagRow) × (find_first (is_tag package_id tag) (set_tag package_id tag version_id rows)
          ≡ some row)
        × (row.version_id ≡ version_id))
      × ((p t : ℕ)
          → (p == package_id && t == tag) ≡ false
          → find_first (is_tag p t) (set_tag package_id tag version_id rows)
            ≡ find_first (is_tag p t) rows)
unfolding set_tag
set_tag_then_found package_id tag v [] =
    let new : TagRow = record { package_id = package_id; tag = tag; version_id = v } in
    let here : is_tag package_id tag new ≡ true = ground arith in
    (
      (new, rw here refl, refl),
      λ p t ne. (let no' : is_tag p t new ≡ false = ground arith in rw no' refl),
    )
set_tag_then_found package_id tag v (r ∷ rows) = elim (Bool-cases (is_tag package_id tag r)) [
  | inl same ↦ rw same (
    (record r { version_id = v }, rw same refl, refl),
    λ p t ne. (let no' : is_tag p t r ≡ false = ground arith in rw no' refl),
  )
  | inr other ↦
      let rest = set_tag_then_found package_id tag v rows in
      rw other (
        rw other rest.0,
        λ p t ne. elim (Bool-cases (is_tag p t r)) [
          | inl here ↦ rw here refl
          | inr there ↦ rw there (rest.1 p t ne)
        ],
      )
]
