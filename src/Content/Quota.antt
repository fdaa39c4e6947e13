-- ===== src/Content/Quota.antt =====
-- packages/registry-platform/src/governance/quota.ts.
use hootifactory.Prelude.{
  ℕ, ◌+◌, ◌-◌, Bool, ◌&&◌, List, Option, none, some, nat_eq, ◌==◌, if◌then◌else◌, ltb, any,
}
use hootifactory.Content.State.{BlobRef, QuotaRow, Store, quota_exceeded, Result, ok, err, update}

unfoldable pub assert_storage_quota_row_allows : Option QuotaRow → ℕ → Result (Unit {0})
assert_storage_quota_row_allows none add_bytes = ok tt
assert_storage_quota_row_allows (some q) add_bytes = elim q.max_storage [
  | none ↦ ok tt
  | some limit ↦ if ltb limit (q.used_storage + add_bytes) then err quota_exceeded else ok tt
]

unfoldable pub assert_artifact_quota_row_allows : Option QuotaRow → ℕ → Result (Unit {0})
assert_artifact_quota_row_allows none add_artifacts = ok tt
assert_artifact_quota_row_allows (some q) add_artifacts = elim q.max_artifacts [
  | none ↦ ok tt
  | some limit ↦ if ltb limit (q.used_artifacts + add_artifacts) then err quota_exceeded else ok tt
]

-- A signed change of a counter; the database keeps `GREATEST(0, used + delta)`.
pub data Delta : Type 0 where
  plus minus : ℕ → Delta

abbrev pub shifted : ℕ → Delta → ℕ
shifted used (plus n) = used + n
shifted used (minus n) = used - n

unfoldable pub adjust_storage_used : Store → ℕ → Delta → Store
adjust_storage_used s org_id delta = elim (s.quotas org_id) [
  | none ↦ s
  | some q ↦ record s {
    quotas =
        update s.quotas org_id (some (record q { used_storage = shifted q.used_storage delta }));
  }
]

unfoldable pub adjust_artifacts_used : Store → ℕ → Delta → Store
adjust_artifacts_used s org_id delta = elim (s.quotas org_id) [
  | none ↦ s
  | some q ↦ record s {
    quotas =
        update s.quotas org_id
          (some (record q { used_artifacts = shifted q.used_artifacts delta }));
  }
]

-- The organisation of each repository is a column of `repositories`, which no operation here
-- changes.
module _ (org_of : ℕ → ℕ) where
  abbrev pub org_ref : ℕ → ℕ → BlobRef → Bool
  org_ref org_id digest ref = org_of ref.repository_id == org_id && ref.digest == digest

  unfoldable pub org_already_references_digest : List BlobRef → ℕ → ℕ → Bool
  org_already_references_digest refs org_id digest = any (org_ref org_id digest) refs
