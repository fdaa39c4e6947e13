-- ===== src/Content/Uploads/Staging.antt =====
-- The bytes that open sessions stage, in packages/registry-oci/src/oci-uploads.ts.
use hootifactory.Prelude.{
  ℕ, ◌+◌, ◌≡◌, refl, sym, ap, subst, inl, inr, Bool, true, ◌&&◌, List, [], ◌∷◌, ◌++◌, Option, some,
  arith, ◌==◌, nat_eq, nat_beq_iff, if◌then◌else◌, ltb, keep, Bool-cases,
}
use hootifactory.Content.State.{upload_invalid, Result, ok, err, ◌>>=◌}
use hootifactory.Content.Blobs.{BlobPut, StoredBlob, RefInput, commit_uploaded_blob_ref}
use hootifactory.Content.Uploads.{
  is_open, UploadChunk, UploadSession, Uploads, Target, ContentRange, validate_content_range,
  chunk_bytes, is_open_target, update_where, create_session, load_open, ChunkPlan, appended,
  plan_upload_chunk, assert_staging_budget, plan_chunk, store_plan, finish_patch, check_put,
  commit_session, finish_put, cancel_upload, upload_status, reap_expired,
}

-- An open session's offset is the number of bytes that its chunks hold.
abbrev pub Contiguous : UploadSession → Type 0
Contiguous s = is_open s.state ≡ true → chunk_bytes s.chunks ≡ s.offset_bytes

abbrev pub AllSessions : (UploadSession → Type 0) → List UploadSession → Type 0
AllSessions P [] = Unit
AllSessions P (s ∷ ss) = P s × AllSessions P ss

-- The transactions that write sessions, with any arguments for which they succeed.
pub data Step (org_of : ℕ → ℕ) (u : Uploads) : Uploads → Type 0 where
  created :
      (expires_at : ℕ) (t : Target) {v : Uploads}
      → create_session expires_at t u ≡ some v
      → Step org_of u v
  patched :
      (now max_staged : ℕ) (t : Target) (range : Option ContentRange) (chunk_length key : ℕ)
      (pending : ChunkPlan) (seen : List UploadSession) {r : ℕ × Uploads}
      → finish_patch org_of now max_staged t range chunk_length key pending seen u ≡ ok r
      → Step org_of u r.1
  put :
      (now : ℕ) (t : Target) (range : Option ContentRange) (header_length : Option ℕ)
      (blob : BlobPut) (input : RefInput) {r : StoredBlob × Uploads}
      → finish_put org_of now t range header_length blob input u ≡ ok r
      → Step org_of u r.1
  cancelled : (now : ℕ) (t : Target) {v : Uploads} → cancel_upload now t u ≡ ok v → Step org_of u v
  asked : (now : ℕ) (t : Target) → Step org_of u (upload_status now t u).1
  reaped :
      (now : ℕ) (expired candidates : List ℕ) (deleted : ℕ → Bool)
      → Step org_of u (reap_expired now expired candidates deleted u)

pub data Reach (org_of : ℕ → ℕ) (u : Uploads) : Uploads → Type 0 where
  here : Reach org_of u u
  next : {v w : Uploads} → Reach org_of u v → Step org_of v w → Reach org_of u w

pub update-All :
    (P : UploadSession → Type 0) (p : UploadSession → Bool) (f : UploadSession → UploadSession)
    → ((s : UploadSession) → P s → P (f s))
    → (ss : List UploadSession) → AllSessions P ss
    → AllSessions P (update_where p f ss)
update-All P p f h [] a = tt
update-All P p f h (s ∷ ss) (a, rest) = elim (Bool-cases (p s)) [
  | inl y ↦ rw y (h s a, update-All P p f h ss rest)
  | inr n ↦ rw n (a, update-All P p f h ss rest)
]

pub keep-All :
    (P : UploadSession → Type 0) (p : UploadSession → Bool) (ss : List UploadSession)
    → AllSessions P ss
    → AllSessions P (keep p ss)
keep-All P p [] a = tt
keep-All P p (s ∷ ss) (a, rest) = elim (Bool-cases (p s)) [
  | inl y ↦ rw y (a, keep-All P p ss rest)
  | inr n ↦ rw n (keep-All P p ss rest)
]

chunk_bytes-append :
    (xs ys : List UploadChunk) → chunk_bytes (xs ++ ys) ≡ chunk_bytes xs + chunk_bytes ys
chunk_bytes-append [] ys = omega arith
chunk_bytes-append (x ∷ xs) ys = omega (arith, chunk_bytes-append xs ys)

appended_lem :
    (s : UploadSession) (n key : ℕ) → chunk_bytes (appended s n key) ≡ chunk_bytes s.chunks + n
appended_lem s n key = elim (Bool-cases (ltb 0 n)) [
  | inl y ↦ rw (y, chunk_bytes-append s.chunks (record { key = key; size = n } ∷ [])) (omega arith)
  | inr z ↦ rw z (ground arith)
]

-- What a bind that succeeded went through.
pub bind_ok :
    {A B : Type 0} (m : Result A) (k : A → Result B) {b : B}
    → (m >>= k) ≡ ok b
    → (a : A) × (m ≡ ok a) × (k a ≡ ok b)
bind_ok (ok a) k h = (a, refl, h)
bind_ok (err e) k h = cc

pub ok-inj : {A : Type 0} {a b : A} → ok a ≡ ok b → a ≡ b
ok-inj h = cc

abbrev next_plan : UploadSession → ℕ → ℕ → ChunkPlan
next_plan s n key = record {
  start_offset = chunk_bytes s.chunks;
  offset = chunk_bytes s.chunks + n;
  chunks = appended s n key;
}

abbrev PlanOk : UploadSession → ℕ → ChunkPlan → Type 0
PlanOk s n plan =
    (plan.offset ≡ s.offset_bytes + n)
    × (plan.start_offset ≡ s.offset_bytes)
    × (chunk_bytes plan.chunks ≡ plan.offset)

plan_ok :
    (s : UploadSession) (n key : ℕ) (plan : ChunkPlan)
    → plan_upload_chunk s n key ≡ ok plan
    → PlanOk s n plan
unfolding plan_upload_chunk
plan_ok s n key plan h = elim (Bool-cases (chunk_bytes s.chunks == s.offset_bytes)) [
  | inl y ↦
      let e : ok (next_plan s n key) ≡ ok plan = rw (y, plan_upload_chunk) at h in
      let same : chunk_bytes s.chunks ≡ s.offset_bytes =
        (nat_beq_iff (chunk_bytes s.chunks) s.offset_bytes).0 y in
      subst (PlanOk s n) (ok-inj e) (omega (arith, same), same, appended_lem s n key)
  | inr z ↦ absurd (let e : err upload_invalid ≡ ok plan = rw (z, plan_upload_chunk) at h in cc)
]

-- What a plan that succeeded went through.
plan_chunk_ok :
    (now : ℕ) (t : Target) (range : Option ContentRange) (n key : ℕ) (u : Uploads)
    (plan : ChunkPlan)
    → plan_chunk now t range n key u ≡ ok plan
    → (s : UploadSession) × (load_open now t u ≡ ok s) × PlanOk s n plan
unfolding plan_chunk
plan_chunk_ok now t range n key u plan h =
    let (s, loaded, h₁) = bind_ok (load_open now t u) _ h in
    let (v, valid, planned) = bind_ok (validate_content_range range s.offset_bytes n) _ h₁ in
    (s, loaded, plan_ok s n key plan planned)

module _ (org_of : ℕ → ℕ) where
  -- What a chunk that was stored went through.
  pub finish_patch_ok :
      (now max_staged : ℕ) (t : Target) (range : Option ContentRange) (n key : ℕ)
      (pending : ChunkPlan) (seen : List UploadSession) (u : Uploads) (r : ℕ × Uploads)
      → finish_patch org_of now max_staged t range n key pending seen u ≡ ok r
      → (plan : ChunkPlan) × (s : UploadSession) × (load_open now t u ≡ ok s)
        × PlanOk s n plan
        × (assert_staging_budget org_of max_staged t plan.offset seen u ≡ ok tt)
        × ((
          plan.offset,
          record u { sessions = update_where (is_open_target t) (store_plan plan) u.sessions },
        )
            ≡ r)
  unfolding finish_patch
  finish_patch_ok now max_staged t range n key pending seen u r h =
      let (plan, planned, h₁) = bind_ok (plan_chunk now t range n key u) _ h in
      let (s, loaded, shape) = plan_chunk_ok now t range n key u plan planned in
      let (v, same, h₂) =
        bind_ok
          (if plan.start_offset == pending.start_offset && plan.offset == pending.offset
            then ok tt
            else err upload_invalid)
          _ h₁ in
      let (w, within, h₃) =
        bind_ok (assert_staging_budget org_of max_staged t plan.offset seen u) _ h₂ in
      (plan, s, loaded, shape, within, ok-inj h₃)

  pub finish_put_ok :
      (now : ℕ) (t : Target) (range : Option ContentRange) (len : Option ℕ) (blob : BlobPut)
      (input : RefInput) (u : Uploads) (r : StoredBlob × Uploads)
      → finish_put org_of now t range len blob input u ≡ ok r
      → (s : UploadSession) × (size : ℕ) × (load_open now t u ≡ ok s)
        × (r.1.sessions ≡ update_where (is_open_target t) (commit_session size) u.sessions)
  unfolding finish_put
  finish_put_ok now t range len blob input u r h =
      let (s, loaded, h₁) = bind_ok (load_open now t u) _ h in
      let (v, checked, h₂) = bind_ok (check_put s range len blob) _ h₁ in
      let (stored, done, h₃) =
        bind_ok (commit_uploaded_blob_ref org_of u.content t.ctx blob input) _ h₂ in
      (s, stored.0.size, loaded, sym (ap (λ x. x.1.sessions) (ok-inj h₃)))
