-- ===== src/Content/State.antt =====
-- The rows that the content store keeps: `blobs`, `blob_refs` and `quotas` of packages/db, and the
-- objects of the blob store. Digests, repositories, organisations, kinds and scopes are compared
-- for equality only and stand as numbers. A table with a primary key is a function of the key.
use hootifactory.Prelude.{
  ℕ, ◌≡◌, refl, arith, Bool, false, ◌&&◌, List, Option, nat_eq, ◌==◌, if◌then◌else◌,
}

-- `BLOB_STATE`
pub data BlobState : Type 0 where
  active pending_delete : BlobState

pub record BlobRow : Type 0 where
  pub size_bytes : ℕ
  pub ref_count : ℕ
  pub state : BlobState
  pub pending_since : Option ℕ

pub record BlobRef : Type 0 where
  pub ref_id : ℕ
  pub digest : ℕ
  pub kind : ℕ
  pub repository_id : ℕ
  pub scope : ℕ

-- The quota row of an organisation (the row whose repository is null).
pub record QuotaRow : Type 0 where
  pub used_storage : ℕ
  pub max_storage : Option ℕ
  pub used_artifacts : ℕ
  pub max_artifacts : Option ℕ

pub record Store : Type 0 where
  pub blobs : ℕ → Option BlobRow
  pub blob_refs : List BlobRef
  pub quotas : ℕ → Option QuotaRow
  -- what the blob store holds
  pub objects : ℕ → Bool

-- The repository of a request, and its organisation.
pub record RepoContext : Type 0 where
  pub repo_id : ℕ
  pub org_id : ℕ

pub data Error : Type 0 where
  quota_exceeded blob_unknown upload_unknown upload_expired upload_invalid : Error

pub data Result {ℓ} (A : Type ℓ) : Type ℓ where
  ok : A → Result A
  err : Error → Result A

infixl 5 ◌>>=◌
abbrev pub ◌>>=◌ {ℓ m} : {A : Type ℓ} {B : Type m} → Result A → (A → Result B) → Result B
err failure >>= next = err failure
ok value >>= next = next value

infixl 5 ◌>>◌
abbrev pub ◌>>◌ {ℓ} : {B : Type ℓ} → Result (Unit {0}) → Result B → Result B
check >> rest = check >>= λ done. rest

pub >>-eq-ok {ℓ} :
    {B : Type ℓ} (m : Result (Unit {0})) (k : Result B) {b : B}
    → (m >> k) ≡ ok b
    → (m ≡ ok tt) × (k ≡ ok b)
>>-eq-ok (ok tt) k h = (refl, h)
>>-eq-ok (err e) k h = cc

-- A write of one key.
abbrev pub update {ℓ} : {V : Type ℓ} → (ℕ → V) → ℕ → V → ℕ → V
update f k v j = if k == j then v else f j

pub update_same {ℓ} : {V : Type ℓ} (f : ℕ → V) (k : ℕ) (v : V) → update f k v k ≡ v
update_same f k v = ground arith

pub update_other {ℓ} :
    {V : Type ℓ} (f : ℕ → V) (k : ℕ) (v : V) (j : ℕ) → (k == j) ≡ false → update f k v j ≡ f j
update_other f k v j h = rw h

-- The columns by which `blob_refs_uq` makes a reference unique.
abbrev pub same_ref : BlobRef → BlobRef → Bool
same_ref a b =
    a.digest == b.digest
    && (a.kind == b.kind && (a.repository_id == b.repository_id && a.scope == b.scope))
