-- ===== src/Content/Uploads/Offsets.antt =====
-- Offsets and staged bytes along the requests of packages/registry-oci/src/oci-uploads.ts.
use hootifactory.Prelude.{
  ℕ, ◌≡◌, refl, sym, subst, inl, inr, none, some, arith, ◌==◌, nat_eq, find_first, Option-cases,
}
use hootifactory.Content.State.{upload_expired, Result, ok, err}
use hootifactory.Content.Uploads.{
  UploadSession, Uploads, Target, is_open_target, update_where, abort_session, create_session,
  load_open, store_plan, commit_session, cancel_answer, cancel_upload, status_of, upload_status,
  is_expired, reap_expired,
}
use hootifactory.Content.Uploads.Staging.{
  Contiguous, AllSessions, Step, created, patched, put, cancelled, asked, reaped, Reach, here, next,
  update-All, keep-All, bind_ok, finish_patch_ok, finish_put_ok,
}

abbrev pub Offsets : Uploads → Type 0
Offsets u = AllSessions Contiguous u.sessions

create-Offsets :
    (expires_at : ℕ) (t : Target) (u v : Uploads)
    → create_session expires_at t u ≡ some v
    → Offsets u
    → Offsets v
unfolding create_session
create-Offsets expires_at t u v h inv =
    elim (Option-cases (find_first (λ s. s.id == t.uuid) u.sessions)) [
      | inr (s, taken) ↦ absurd (let e : none ≡ some v = rw (taken, create_session) at h in cc)
      | inl free ↦ subst Offsets (some-inj (rw (free, create_session) at h)) ((λ o. refl), inv)
    ]
  where
    some-inj : {x y : Uploads} → some x ≡ some y → x ≡ y
    some-inj e = cc

abort-Offsets :
    (t : Target) (u : Uploads)
    → Offsets u
    → AllSessions Contiguous (update_where (is_open_target t) abort_session u.sessions)
abort-Offsets t u inv =
    update-All Contiguous (is_open_target t) abort_session (λ s c o. absurd (ground arith))
      u.sessions inv

cancel-Offsets :
    (now : ℕ) (t : Target) (u v : Uploads) → cancel_upload now t u ≡ ok v → Offsets u → Offsets v
unfolding cancel_upload
cancel-Offsets now t u v h inv =
    let (s, loaded, h₁) = bind_ok (cancel_answer (load_open now t u)) _ h in
    subst Offsets (ok-inj h₁) (abort-Offsets t u inv)
  where
    ok-inj : {x y : Uploads} → ok x ≡ ok y → x ≡ y
    ok-inj e = cc

status_of-Offsets :
    (t : Target) (u : Uploads) (r : Result UploadSession) → Offsets u → Offsets (status_of t u r).1
status_of-Offsets t u (ok s) inv = inv
status_of-Offsets t u (err upload_expired) inv = abort-Offsets t u inv
status_of-Offsets t u (err _) inv = inv

status-Offsets :
    (now : ℕ) (t : Target) (u : Uploads) → Offsets u → Offsets (upload_status now t u).1
unfolding upload_status
status-Offsets now t u inv = status_of-Offsets t u (load_open now t u) inv

Step-Offsets : {org_of : ℕ → ℕ} {u v : Uploads} → Step org_of u v → Offsets u → Offsets v
unfolding reap_expired
Step-Offsets {u = u} {v = v} (created expires_at t h) inv = create-Offsets expires_at t u v h inv
Step-Offsets {org_of} {u} (patched now m t range n key pending seen {r} h) inv =
    let (plan, s, loaded, (off, start, bytes), within, e) =
      finish_patch_ok org_of now m t range n key pending seen u r h in
    subst (λ x. Offsets x.1) e
      (update-All Contiguous (is_open_target t) (store_plan plan) (λ s c o. bytes) u.sessions inv)
Step-Offsets {org_of} {u} (put now t range len blob input {r} h) inv =
    let (s, size, loaded, e) = finish_put_ok org_of now t range len blob input u r h in
    subst (AllSessions Contiguous) (sym e) (
      update-All Contiguous (is_open_target t) (commit_session size)
        (λ s c o. absurd (ground arith)) u.sessions inv)
Step-Offsets {u = u} {v = v} (cancelled now t h) inv = cancel-Offsets now t u v h inv
Step-Offsets {u = u} (asked now t) inv = status-Offsets now t u inv
Step-Offsets {u = u} (reaped now expired candidates deleted) inv = keep-All Contiguous _ _ (
    update-All Contiguous (is_expired now expired) abort_session (λ s c o. absurd (ground arith))
      u.sessions inv)

-- However the requests of clients and the reaper interleave, the offset of every open session is
-- the number of bytes of its staged chunks.
pub Reach-Offsets : {org_of : ℕ → ℕ} {u v : Uploads} → Reach org_of u v → Offsets u → Offsets v
Reach-Offsets here inv = inv
Reach-Offsets (next r s) inv = Step-Offsets s (Reach-Offsets r inv)
