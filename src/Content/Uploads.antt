-- ===== src/Content/Uploads.antt =====
-- Upload sessions: packages/registry-platform/src/content/upload-sessions.ts and the handlers of
-- packages/registry-oci/src/oci-uploads.ts. A transaction locks the row of its session and, for
-- the staging budget, the quota row of the organisation, so each is one function on the state;
-- `err` rolls back. An organisation without a quota row has no such lock: there the budget's sum
-- may be of earlier rows, which are an argument. Ids, scopes and staging keys are compared for
-- equality only and stand as numbers.
pub mod Staging
pub mod Offsets
pub mod Budget
pub mod Closed
use hootifactory.Prelude.{
  ℕ, ◌+◌, ◌-◌, ◌^◌, Bool, true, false, not, ◌&&◌, ◌||◌, List, [], ◌∷◌, ◌++◌, Option, none, some,
  ◌==◌, nat_eq, if◌then◌else◌, ltb, leb, keep, find_first, contains,
}
use hootifactory.Content.State.{
  QuotaRow, Store, RepoContext, Error, quota_exceeded, upload_unknown, upload_expired,
  upload_invalid, Result, ok, err, ◌>>=◌, ◌>>◌,
}
use hootifactory.Content.Quota.{assert_storage_quota_row_allows}
use hootifactory.Content.Blobs.{BlobPut, StoredBlob, RefInput, commit_uploaded_blob_ref}

-- `UPLOAD_STATE`
pub data UploadState : Type 0 where
  open_state committed aborted closed : UploadState

abbrev pub is_open : UploadState → Bool
is_open open_state = true
is_open _ = false

pub record UploadChunk : Type 0 where
  pub key : ℕ
  pub size : ℕ

-- A row of `upload_sessions`; `chunks` is what `uploadMultipartState` reads from its JSON.
pub record UploadSession : Type 0 where
  pub id : ℕ
  pub repository_id : ℕ
  pub scope : ℕ
  pub offset_bytes : ℕ
  pub chunks : List UploadChunk
  pub state : UploadState
  pub expires_at : ℕ

pub record Uploads : Type 0 where
  pub content : Store
  pub sessions : List UploadSession

-- What a request names: its repository, the scope (image) and the session's id.
pub record Target : Type 0 where
  pub ctx : RepoContext
  pub scope : ℕ
  pub uuid : ℕ

-- A `content-range` header: refused by the pattern, or two numbers.
pub data ContentRange : Type 0 where
  malformed : ContentRange
  from_to : ℕ → ℕ → ContentRange

abbrev is_safe_integer : ℕ → Bool
is_safe_integer n = ltb n (2 ^ 53)

unfoldable pub parse_content_range : ContentRange → Result (ℕ × ℕ)
parse_content_range malformed = err upload_invalid
parse_content_range (from_to start end) =
    if not (is_safe_integer start) || (not (is_safe_integer end) || ltb end start)
    then err upload_invalid
    else ok (start, end)

-- The end is compared as `end + 1`, since the code's `expectedStart + chunkLength - 1` is taken
-- with a positive length only.
unfoldable pub validate_content_range : Option ContentRange → ℕ → ℕ → Result (Unit {0})
validate_content_range none expected_start chunk_length = ok tt
validate_content_range (some header) expected_start chunk_length =
    if chunk_length == 0
    then err upload_invalid
    else parse_content_range header >>= λ range.
        if range.0 == expected_start && range.1 + 1 == expected_start + chunk_length
        then ok tt
        else err upload_invalid

-- `content-length` where it is a safe integer, then `content-range`.
unfoldable pub request_body_length : Option ℕ → Option ContentRange → Result (Option ℕ)
request_body_length (some n) range = ok (some n)
request_body_length none none = ok none
request_body_length none (some header) =
    parse_content_range header >>= λ range. ok (some (range.1 - range.0 + 1))

abbrev pub chunk_bytes : List UploadChunk → ℕ
chunk_bytes [] = 0
chunk_bytes (c ∷ cs) = c.size + chunk_bytes cs

abbrev pub is_target : Target → UploadSession → Bool
is_target t s = s.id == t.uuid && (s.repository_id == t.ctx.repo_id && s.scope == t.scope)

-- `openContentUploadSessionWhere`
abbrev pub is_open_target : Target → UploadSession → Bool
is_open_target t s = is_target t s && is_open s.state

abbrev pub update_where :
    (UploadSession → Bool)
    → (UploadSession → UploadSession)
    → List UploadSession
    → List UploadSession
update_where p f [] = []
update_where p f (s ∷ ss) = (if p s then f s else s) ∷ update_where p f ss

abbrev pub abort_session : UploadSession → UploadSession
abort_session s = record s { state = aborted }

-- `createContentUploadSession`; the primary key refuses an id that is taken.
unfoldable pub create_session : ℕ → Target → Uploads → Option Uploads
create_session expires_at t u = elim (find_first (λ s. s.id == t.uuid) u.sessions) [
  | some s ↦ none
  | none ↦ some (record u {
    sessions =
        record {
          id = t.uuid;
          repository_id = t.ctx.repo_id;
          scope = t.scope;
          offset_bytes = 0;
          chunks = [];
          state = open_state;
          expires_at = expires_at;
        }
        ∷ u.sessions;
  })
]

-- `assertOpenSession`, for a session that was loaded.
unfoldable pub assert_open_session : ℕ → Option UploadSession → Result UploadSession
assert_open_session now none = err upload_unknown
assert_open_session now (some s) =
    if is_open s.state
    then if ltb now s.expires_at then ok s else err upload_expired
    else err upload_unknown

unfoldable pub load_open : ℕ → Target → Uploads → Result UploadSession
load_open now t u = assert_open_session now (find_first (is_target t) u.sessions)

pub record ChunkPlan : Type 0 where
  pub start_offset : ℕ
  pub offset : ℕ
  pub chunks : List UploadChunk

abbrev pub appended : UploadSession → ℕ → ℕ → List UploadChunk
appended s chunk_length key =
    if ltb 0 chunk_length
    then s.chunks ++ (record { key = key; size = chunk_length } ∷ [])
    else s.chunks

unfoldable pub plan_upload_chunk : UploadSession → ℕ → ℕ → Result ChunkPlan
plan_upload_chunk s chunk_length key =
    if chunk_bytes s.chunks == s.offset_bytes
    then ok (record {
      start_offset = chunk_bytes s.chunks;
      offset = chunk_bytes s.chunks + chunk_length;
      chunks = appended s chunk_length key;
    })
    else err upload_invalid

abbrev pub store_plan : ChunkPlan → UploadSession → UploadSession
store_plan plan s = record s { offset_bytes = plan.offset; chunks = plan.chunks }

-- What both transactions of `patchUpload` do first.
unfoldable pub plan_chunk : ℕ → Target → Option ContentRange → ℕ → ℕ → Uploads → Result ChunkPlan
plan_chunk now t range chunk_length key u = do
  s ← load_open now t u
  validate_content_range range s.offset_bytes chunk_length
  plan_upload_chunk s chunk_length key

-- The rows that the sum of `assertStagingBudget` reads: those of its time behind the lock of the
-- quota row, and `seen`, read at any earlier time, where there is no row to lock.
abbrev pub budget_rows :
    Option QuotaRow → List UploadSession → List UploadSession → List UploadSession
budget_rows none seen sessions = seen
budget_rows (some q) seen sessions = sessions

-- The first transaction of `putUpload`: the chunks that are staged.
unfoldable pub start_put :
    ℕ → Target → Option ContentRange → Option ℕ → Uploads → Result (List UploadChunk)
start_put now t range header_length u = do
  s ← load_open now t u
  (elim header_length [ none ↦ ok tt | some n ↦ validate_content_range range s.offset_bytes n ])
  (if chunk_bytes s.chunks == s.offset_bytes then ok s.chunks else err upload_invalid)

abbrev length_matches : Option ℕ → ℕ → Bool
length_matches none n = true
length_matches (some m) n = m == n

-- The checks of the second transaction of `putUpload` on the session and the uploaded blob.
unfoldable pub check_put :
    UploadSession → Option ContentRange → Option ℕ → BlobPut → Result (Unit {0})
check_put s range header_length blob =
    if not (chunk_bytes s.chunks == s.offset_bytes) || ltb blob.size (chunk_bytes s.chunks)
    then err upload_invalid
    else validate_content_range range s.offset_bytes (blob.size - chunk_bytes s.chunks)
      >> (if length_matches header_length (blob.size - chunk_bytes s.chunks)
          then ok tt
          else err upload_invalid)

abbrev pub commit_session : ℕ → UploadSession → UploadSession
commit_session size s = record s { state = committed; offset_bytes = size }

module _ (org_of : ℕ → ℕ) where
  -- The rows that `sumOpenUploadBytesForOrgTx` counts, but for the session left out.
  abbrev pub counts_for : ℕ → UploadSession → Bool
  counts_for org s = org_of s.repository_id == org && is_open s.state

  abbrev pub open_bytes : ℕ → (UploadSession → Bool) → List UploadSession → ℕ
  open_bytes org p [] = 0
  open_bytes org p (s ∷ ss) =
      (if counts_for org s && p s then s.offset_bytes else 0) + open_bytes org p ss

  unfoldable pub assert_staging_budget :
      ℕ → Target → ℕ → List UploadSession → Uploads → Result (Unit {0})
  assert_staging_budget max_staged t next seen u =
      let rows = budget_rows (u.content.quotas t.ctx.org_id) seen u.sessions in
      let others = open_bytes t.ctx.org_id (λ s. not (s.id == t.uuid)) rows in
      if ltb max_staged (others + next)
      then err quota_exceeded
      else assert_storage_quota_row_allows (u.content.quotas t.ctx.org_id) (others + next)

  -- The first transaction of `patchUpload`.
  unfoldable pub plan_append :
      ℕ → ℕ → Target → Option ContentRange → ℕ → ℕ → List UploadSession → Uploads → Result ChunkPlan
  plan_append now max_staged t range chunk_length key seen u = do
    plan ← plan_chunk now t range chunk_length key u
    assert_staging_budget max_staged t plan.offset seen u
    ok plan

  -- The second transaction of `patchUpload`, behind the upload of the chunk: `pending` is the plan
  -- of the first, with which its own is compared before the budget is checked again.
  unfoldable pub finish_patch :
      ℕ
      → ℕ
      → Target
      → Option ContentRange
      → ℕ
      → ℕ
      → ChunkPlan
      → List UploadSession
      → Uploads
      → Result (ℕ × Uploads)
  finish_patch now max_staged t range chunk_length key pending seen u = do
    plan ← plan_chunk now t range chunk_length key u
    (if plan.start_offset == pending.start_offset && plan.offset == pending.offset
        then ok tt
        else err upload_invalid)
    assert_staging_budget max_staged t plan.offset seen u
    ok (
      plan.offset,
      record u { sessions = update_where (is_open_target t) (store_plan plan) u.sessions },
    )

  -- The second transaction of `putUpload`: the blob's commit and the session's.
  unfoldable pub finish_put :
      ℕ
      → Target
      → Option ContentRange
      → Option ℕ
      → BlobPut
      → RefInput
      → Uploads
      → Result (StoredBlob × Uploads)
  finish_put now t range header_length blob input u = do
    s ← load_open now t u
    check_put s range header_length blob
    stored ← commit_uploaded_blob_ref org_of u.content t.ctx blob input
    ok (
      stored.0,
      record {
        content = stored.1;
        sessions = update_where (is_open_target t) (commit_session stored.0.size) u.sessions;
      },
    )

-- `cancelUpload` answers an expired session as one that it does not know.
abbrev pub cancel_answer : Result UploadSession → Result UploadSession
cancel_answer (ok s) = ok s
cancel_answer (err upload_expired) = err upload_unknown
cancel_answer (err e) = err e

-- `cancelUpload`: the abort of an expired session is rolled back by the throw behind it.
unfoldable pub cancel_upload : ℕ → Target → Uploads → Result Uploads
cancel_upload now t u = do
  s ← cancel_answer (load_open now t u)
  ok (record u { sessions = update_where (is_open_target t) abort_session u.sessions })

-- `uploadStatus` behind the load of the session: the offset, and an expired session is aborted.
abbrev pub status_of : Target → Uploads → Result UploadSession → Result ℕ × Uploads
status_of t u (ok s) = (ok s.offset_bytes, u)
status_of t u (err upload_expired) = (
  err upload_unknown,
  record u { sessions = update_where (is_open_target t) abort_session u.sessions },
)
status_of t u (err e) = (err e, u)

-- `uploadStatus`, outside a transaction
unfoldable pub upload_status : ℕ → Target → Uploads → Result ℕ × Uploads
upload_status now t u = status_of t u (load_open now t u)

abbrev pub is_expired : ℕ → List ℕ → UploadSession → Bool
is_expired now ids s = is_open s.state && (leb s.expires_at now && contains ids s.id)

-- `reapExpiredContentUploadSessions`: the ids that the two queries select under their limits, and
-- the candidates whose staged objects the blob store deleted.
unfoldable pub reap_expired : ℕ → List ℕ → List ℕ → (ℕ → Bool) → Uploads → Uploads
reap_expired now expired candidates deleted u =
    let sessions = update_where (is_expired now expired) abort_session u.sessions in
    record u {
      sessions =
          keep (λ s. is_open s.state || not (contains candidates s.id && deleted s.id)) sessions;
    }
