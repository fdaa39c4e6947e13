-- ===== src/Content/Uploads/Closed.antt =====
-- Sessions that are no longer open, in packages/registry-oci/src/oci-uploads.ts.
use hootifactory.Prelude.{
  ℕ, ◌≡◌, refl, sym, subst, Bool, true, false, List, [], ◌∷◌, Option, none, some, arith, ◌==◌,
  nat_eq, ltb, find_first, Bool-cases, Option-cases, inl, inr,
}
use hootifactory.Content.State.{upload_unknown, upload_expired, Result, ok, err}
use hootifactory.Content.Blobs.{BlobPut, StoredBlob, RefInput}
use hootifactory.Content.Uploads.{
  is_open, UploadSession, Uploads, Target, ContentRange, is_target, is_open_target, update_where,
  abort_session, create_session, assert_open_session, load_open, ChunkPlan, plan_chunk, store_plan,
  finish_patch, commit_session, finish_put, cancel_answer, cancel_upload, status_of, upload_status,
  is_expired, reap_expired,
}
use hootifactory.Content.Uploads.Staging.{
  AllSessions, Step, created, patched, put, cancelled, asked, reaped, Reach, here, next, update-All,
  keep-All, bind_ok, ok-inj, finish_patch_ok, finish_put_ok,
}

pub load_ok :
    (now : ℕ) (t : Target) (u : Uploads) (s : UploadSession)
    → load_open now t u ≡ ok s
    → (find_first (is_target t) u.sessions ≡ some s) × (is_open s.state ≡ true)
unfolding load_open assert_open_session
load_ok now t u s h = elim (Option-cases (find_first (is_target t) u.sessions)) [
  | inl missing ↦
      absurd (
        let e : err upload_unknown ≡ ok s = rw (missing, load_open, assert_open_session) at h in cc)
  | inr (x, found) ↦ elim (Bool-cases (is_open x.state)) [
    | inr shut ↦ absurd (
        let e : err upload_unknown ≡ ok s = rw (found, load_open, assert_open_session, shut) at h in
        cc)
    | inl o ↦ elim (Bool-cases (ltb now x.expires_at)) [
      | inr late ↦ absurd (
          let e : err upload_expired ≡ ok s =
            rw (found, load_open, assert_open_session, o, late) at h in
          cc)
      | inl soon ↦
          let e : ok x ≡ ok s = rw (found, load_open, assert_open_session, o, soon) at h in
          let same : x ≡ s = cc in (rw (found, same) refl, rw (sym same) o)
    ]
  ]
]

-- No session that a request of the target would find is open.
abbrev pub Shut : Target → UploadSession → Type 0
Shut t s = is_open_target t s ≡ false

abbrev pub AllShut : Target → Uploads → Type 0
AllShut t u = AllSessions (Shut t) u.sessions

commit-Shut :
    (t : Target) (size : ℕ) (ss : List UploadSession)
    → AllSessions (Shut t) (update_where (is_open_target t) (commit_session size) ss)
commit-Shut t size [] = tt
commit-Shut t size (s ∷ ss) = elim (Bool-cases (is_open_target t s)) [
  | inl opened ↦ rw opened (ground arith, commit-Shut t size ss)
  | inr shut ↦ rw shut (shut, commit-Shut t size ss)
]

abort-Shut : (t : Target) (s : UploadSession) → Shut t s → Shut t (abort_session s)
abort-Shut t s h = ground arith

update-Shut :
    (t : Target) (u : Uploads) (p : UploadSession → Bool) (f : UploadSession → UploadSession)
    → ((s : UploadSession) → Shut t s → Shut t (f s))
    → AllShut t u
    → AllSessions (Shut t) (update_where p f u.sessions)
update-Shut t u p f h a = update-All (Shut t) p f h u.sessions a

create-Shut :
    (expires_at : ℕ) (t t' : Target) (u v : Uploads)
    → create_session expires_at t' u ≡ some v
    → (t'.uuid == t.uuid) ≡ false
    → AllShut t u
    → AllShut t v
unfolding create_session
create-Shut expires_at t t' u v h other a =
    elim (Option-cases (find_first (λ s. s.id == t'.uuid) u.sessions)) [
      | inr (s, taken) ↦ absurd (let e : none ≡ some v = rw (taken, create_session) at h in cc)
      | inl free ↦ subst (AllShut t) (some-inj (rw (free, create_session) at h)) (rw other refl, a)
    ]
  where
    some-inj : {x y : Uploads} → some x ≡ some y → x ≡ y
    some-inj e = cc

status_of-Shut :
    (t t' : Target) (u : Uploads) (r : Result UploadSession)
    → AllShut t u
    → AllShut t (status_of t' u r).1
status_of-Shut t t' u (ok s) a = a
status_of-Shut t t' u (err upload_expired) a =
    update-Shut t u (is_open_target t') abort_session (abort-Shut t) a
status_of-Shut t t' u (err _) a = a

-- A step that creates a session of the id.
abbrev pub creates_id : {org_of : ℕ → ℕ} (id : ℕ) {u v : Uploads} → Step org_of u v → Bool
creates_id id (created expires_at t h) = t.uuid == id
creates_id id _ = false

-- No step creates a session of the id: ids are drawn at random.
abbrev pub NeverCreated : {org_of : ℕ → ℕ} (id : ℕ) {u v : Uploads} → Reach org_of u v → Type 0
NeverCreated id here = Unit
NeverCreated id (next r s) = NeverCreated id r × (creates_id id s ≡ false)

step-Shut :
    {org_of : ℕ → ℕ} (t : Target) {u v : Uploads} (s : Step org_of u v)
    → creates_id t.uuid s ≡ false
    → AllShut t u
    → AllShut t v
unfolding cancel_upload upload_status reap_expired
step-Shut t {u} {v} (created expires_at t' h) other a = create-Shut expires_at t t' u v h other a
step-Shut {org_of} t {u} (patched now m t' range n key pending seen {r} h) other a =
    let (plan, s, loaded, shape, within, e) =
      finish_patch_ok org_of now m t' range n key pending seen u r h in
    subst (λ x. AllShut t x.1) e
      (update-Shut t u (is_open_target t') (store_plan plan) (λ s h. h) a)
step-Shut {org_of} t {u} (put now t' range len blob input {r} h) other a =
    let (s, size, loaded, e) = finish_put_ok org_of now t' range len blob input u r h in
    subst (AllSessions (Shut t)) (sym e)
      (update-Shut t u (is_open_target t') (commit_session size) (λ s h. ground arith) a)
step-Shut t {u} {v} (cancelled now t' h) other a =
    let (s, loaded, h₁) = bind_ok (cancel_answer (load_open now t' u)) _ h in
    subst (AllShut t) (ok-inj h₁)
      (update-Shut t u (is_open_target t') abort_session (abort-Shut t) a)
step-Shut t {u} (asked now t') other a = status_of-Shut t t' u (load_open now t' u) a
step-Shut t {u} (reaped now expired candidates deleted) other a =
    keep-All (Shut t) _ _ (update-Shut t u (is_expired now expired) abort_session (abort-Shut t) a)

reach-Shut :
    {org_of : ℕ → ℕ} (t : Target) {u v : Uploads} (r : Reach org_of u v)
    → NeverCreated t.uuid r
    → AllShut t u
    → AllShut t v
reach-Shut t here fresh a = a
reach-Shut t (next r s) fresh a = step-Shut t s fresh.1 (reach-Shut t r fresh.0 a)

found-Shut :
    (t : Target) (ss : List UploadSession) (s : UploadSession)
    → AllSessions (Shut t) ss
    → find_first (is_target t) ss ≡ some s
    → is_open s.state ≡ false
found-Shut t [] s a f = cc
found-Shut t (x ∷ ss) s (shut, rest) f = elim (Bool-cases (is_target t x)) [
  | inl hit ↦
      let e : some x ≡ some s = rw hit at f in
      let same : x ≡ s = cc e in let o : is_open x.state ≡ false = rw hit at shut in rw (← same) o
  | inr other ↦ found-Shut t ss s rest (rw other at f)
]

load_shut :
    (later : ℕ) (t : Target) (u : Uploads) → AllShut t u → load_open later t u ≡ err upload_unknown
unfolding load_open assert_open_session
load_shut later t u a = elim (Option-cases (find_first (is_target t) u.sessions)) [
  | inl missing ↦ rw (load_open, missing, assert_open_session) refl
  | inr (s, found) ↦
      rw (load_open, found, assert_open_session, found-Shut t u.sessions s a found) refl
]

-- An upload is committed at most once: behind a successful second transaction of `putUpload`, and
-- any further steps of which none creates a session of the same id anew, every chunk, commit or
-- cancel of that session is refused as unknown, at any time and with any arguments.
pub put_upload_closes :
    (org_of : ℕ → ℕ) (now : ℕ) (t : Target) (range : Option ContentRange) (len : Option ℕ)
    (blob : BlobPut) (input : RefInput) (u : Uploads) (r : StoredBlob × Uploads)
    → finish_put org_of now t range len blob input u ≡ ok r
    → (v : Uploads) (steps : Reach org_of r.1 v) → NeverCreated t.uuid steps
    → (later max_staged n key : ℕ) (range' : Option ContentRange) (len' : Option ℕ)
      (pending : ChunkPlan) (seen : List UploadSession) (blob' : BlobPut) (input' : RefInput)
    → (finish_patch org_of later max_staged t range' n key pending seen v ≡ err upload_unknown)
      × (finish_put org_of later t range' len' blob' input' v ≡ err upload_unknown)
      × (cancel_upload later t v ≡ err upload_unknown)
unfolding finish_patch plan_chunk finish_put cancel_upload
put_upload_closes org_of now t range len blob input u r h v steps fresh later max_staged n key
      range' len' pending seen blob' input' =
    let (s, size, loaded, e) = finish_put_ok org_of now t range len blob input u r h in
    let shut : AllShut t r.1 = rw e (commit-Shut t size u.sessions) in
    let gone : load_open later t v ≡ err upload_unknown =
      load_shut later t v (reach-Shut t steps fresh shut) in
    (
      rw (finish_patch, plan_chunk, gone) refl,
      rw (finish_put, gone) refl,
      rw (cancel_upload, gone) refl,
    )
