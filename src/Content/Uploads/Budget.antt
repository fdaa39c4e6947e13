-- ===== src/Content/Uploads/Budget.antt =====
-- The staging budget of an organisation, in packages/registry-platform/src/content/upload-sessions.ts.
use hootifactory.Prelude.{
  ℕ, suc, ◌+◌, ◌≤◌, ◌≡◌, ◌≢◌, refl, subst, true, false, not, List, [], ◌∷◌, Option, some, arith,
  ◌==◌, nat_eq, if◌then◌else◌, ltb, find_first, Bool-cases, inl, inr,
}
use hootifactory.Content.State.{QuotaRow, quota_exceeded, ok, err}
use hootifactory.Content.Uploads.{
  is_open, UploadSession, Uploads, Target, ContentRange, is_target, is_open_target, update_where,
  ChunkPlan, open_bytes, assert_staging_budget, store_plan, finish_patch,
}
use hootifactory.Content.Uploads.Staging.{finish_patch_ok}
use hootifactory.Content.Uploads.Closed.{load_ok}

-- How many sessions have an id; the primary key keeps it at most one.
abbrev pub ids_with : ℕ → List UploadSession → ℕ
ids_with id [] = 0
ids_with id (s ∷ ss) = if s.id == id then suc (ids_with id ss) else ids_with id ss

budget_ok :
    (org_of : ℕ → ℕ) (max_staged next : ℕ) (t : Target) (seen : List UploadSession) (u : Uploads)
    (q : QuotaRow)
    → u.content.quotas t.ctx.org_id ≡ some q
    → assert_staging_budget org_of max_staged t next seen u ≡ ok tt
    → open_bytes org_of t.ctx.org_id (λ s. not (s.id == t.uuid)) u.sessions + next ≤ max_staged
unfolding assert_staging_budget
budget_ok org_of m next t seen u q row h =
    elim (Bool-cases
      (ltb m (open_bytes org_of t.ctx.org_id (λ s. not (s.id == t.uuid)) u.sessions + next))) [
        | inl over ↦
            absurd (
              let e : err quota_exceeded ≡ ok tt = rw (row, assert_staging_budget, over) at h in cc)
        | inr fits ↦ ground arith
      ]

module _ (org_of : ℕ → ℕ) (t : Target) (plan : ChunkPlan) where
  abbrev others : List UploadSession → ℕ
  others ss = open_bytes org_of t.ctx.org_id (λ s. not (s.id == t.uuid)) ss

  abbrev in_all : List UploadSession → ℕ
  in_all ss = open_bytes org_of t.ctx.org_id (λ s. true) ss

  abbrev written : List UploadSession → List UploadSession
  written ss = update_where (is_open_target t) (store_plan plan) ss

  other_id : (s : UploadSession) → (s.id == t.uuid) ≡ false → is_target t s ≡ false
  other_id s h = rw h refl

  -- Without a session of the id nothing is written.
  none_written :
      (ss : List UploadSession) → ids_with t.uuid ss ≡ 0 → in_all (written ss) ≡ others ss
  none_written [] h = refl
  none_written (s ∷ ss) h = elim (Bool-cases (s.id == t.uuid)) [
    | inl same ↦ absurd (let e : suc (ids_with t.uuid ss) ≡ 0 = rw same at h in omega (arith, e))
    | inr other ↦ rw other (omega (arith, none_written ss (rw other at h)))
  ]

  found_counts :
      (ss : List UploadSession) (s : UploadSession)
      → find_first (is_target t) ss ≡ some s
      → ids_with t.uuid ss ≢ 0
  found_counts [] s f = cc
  found_counts (x ∷ ss) s f = elim (Bool-cases (x.id == t.uuid)) [
    | inl same ↦ rw same (λ z. omega (arith, z))
    | inr other ↦ rw other (found_counts ss s (rw (other_id x other) at f))
  ]

  alone :
      (x : UploadSession) (ss : List UploadSession)
      → (x.id == t.uuid) ≡ true
      → ids_with t.uuid (x ∷ ss) ≤ 1
      → ids_with t.uuid ss ≡ 0
  alone x ss same h = let le : suc (ids_with t.uuid ss) ≤ 1 = rw same at h in omega (arith, le)

  -- The head is the session of the request, and the rest has none of its id.
  head_written :
      (x : UploadSession) (ss : List UploadSession)
      → (x.id == t.uuid) ≡ true
      → is_target t x ≡ true
      → ids_with t.uuid ss ≡ 0
      → in_all (written (x ∷ ss)) ≤ others (x ∷ ss) + plan.offset
  head_written x ss same hit none' =
      let rest : in_all (written ss) ≡ others ss = none_written ss none' in
      elim (Bool-cases (is_open x.state)) [
        | inl o ↦ elim (Bool-cases (org_of x.repository_id == t.ctx.org_id)) [
          | inl ours ↦ rw (hit, o, ours, o, same, rest) (omega arith)
          | inr theirs ↦ rw (hit, o, theirs, rest) (omega arith)
        ]
        | inr shut ↦ elim (Bool-cases (org_of x.repository_id == t.ctx.org_id)) [
          | inl ours ↦ rw (shut, hit, shut, ours, rest) (omega arith)
          | inr theirs ↦ rw (shut, hit, shut, theirs, rest) (omega arith)
        ]
      ]

  -- The session of the request is the only one of its id.
  one_written :
      (ss : List UploadSession) (s : UploadSession)
      → ids_with t.uuid ss ≤ 1
      → find_first (is_target t) ss ≡ some s
      → in_all (written ss) ≤ others ss + plan.offset
  one_written [] s h f = cc
  one_written (x ∷ ss) s h f = elim (Bool-cases (x.id == t.uuid)) [
    | inr other ↦
        rw other (omega (arith, one_written ss s (rw other at h) (rw (other_id x other) at f)))
    | inl same ↦ elim (Bool-cases (is_target t x)) [
      | inr astray ↦ absurd (found_counts ss s (rw astray at f) (alone x ss same h))
      | inl hit ↦ head_written x ss same hit (alone x ss same h)
    ]
  ]

-- A chunk is stored only within the staging budget, for an organisation that has a quota row: behind
-- a successful second transaction of `patchUpload`, for a session id that at most one row has, the
-- open sessions of the organisation stage at most `maxStagedUploadBytes` in all.
pub patch_within_budget :
    (org_of : ℕ → ℕ) (now max_staged : ℕ) (t : Target) (range : Option ContentRange) (n key : ℕ)
    (pending : ChunkPlan) (seen : List UploadSession) (u : Uploads) (r : ℕ × Uploads) (q : QuotaRow)
    → u.content.quotas t.ctx.org_id ≡ some q
    → ids_with t.uuid u.sessions ≤ 1
    → finish_patch org_of now max_staged t range n key pending seen u ≡ ok r
    → open_bytes org_of t.ctx.org_id (λ s. true) r.1.sessions ≤ max_staged
patch_within_budget org_of now m t range n key pending seen u r q row once h =
    let (plan, s, loaded, shape, within, e) =
      finish_patch_ok org_of now m t range n key pending seen u r h in
    subst (λ x. open_bytes org_of t.ctx.org_id (λ s. true) x.1.sessions ≤ m) e
      (omega (
        arith,
        one_written org_of t plan u.sessions s once (load_ok now t u s loaded).0,
        budget_ok org_of m plan.offset t seen u q row within,
      ))
