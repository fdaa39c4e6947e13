-- ===== src/Scan/Outbox.antt =====
-- The table `scan_outbox`, one row for each artifact: apps/scan-worker/src/worker-loop.ts,
-- apps/scan-worker/src/scan-outbox-rows.ts and packages/registry-platform/src/runtime/scan-outbox.ts.
-- Times are milliseconds. The text of an error and the trace carrier are left out.
pub mod Claims
pub mod Retries
use hootifactory.Prelude.{
  ℕ, ◌+◌, ◌*◌, ◌^◌, Bool, true, false, not, ◌&&◌, List, [], ◌∷◌, Option, none, some, ◌==◌, nat_eq,
  if◌then◌else◌, ltb, leb, min,
}

-- `SCAN_OUTBOX_STATUS`
pub data OutboxStatus : Type 0 where
  pending processing succeeded failed : OutboxStatus

abbrev pub is_pending : OutboxStatus → Bool
is_pending pending = true
is_pending _ = false

abbrev pub is_processing : OutboxStatus → Bool
is_processing processing = true
is_processing _ = false

pub record OutboxRow : Type 0 where
  pub status : OutboxStatus
  pub attempts : ℕ
  pub next_attempt_at : ℕ
  pub locked_at : Option ℕ

abbrev pub Outbox : Type 0
Outbox = ℕ → Option OutboxRow

-- `ClaimedScanIntent`: the row's id and the attempt that was claimed.
pub record ClaimedScanIntent : Type 0 where
  pub id : ℕ
  pub attempts : ℕ

-- An update of one row, if it is there.
abbrev pub update_row : (OutboxRow → OutboxRow) → ℕ → Outbox → Outbox
update_row f id table j =
    if id == j then elim (table j) [ none ↦ none | some row ↦ some (f row) ] else table j

-- Whether the claim's query may select a row.
abbrev pub is_due : ℕ → OutboxRow → Bool
is_due now row = is_pending row.status && leb row.next_attempt_at now

abbrev pub claim_row : ℕ → OutboxRow → OutboxRow
claim_row now row = record row {
  status = processing;
  attempts = row.attempts + 1;
  locked_at = some now;
}

-- `claimScanIntents` over the ids that the query's order and its locks leave, at most `limit`.
unfoldable pub claim_scan_intents : ℕ → List ℕ → Outbox → List ClaimedScanIntent × Outbox
claim_scan_intents now [] table = ([], table)
claim_scan_intents now (id ∷ ids) table =
    let rest = claim_scan_intents now ids table in
    elim (rest.1 id) [
      | none ↦ rest
      | some row ↦
          if is_due now row
          then (
            record { id = id; attempts = row.attempts + 1 } ∷ rest.0,
            update_row (claim_row now) id rest.1,
          )
          else rest
    ]

-- `claimedAttemptFilter`
abbrev pub is_claimed_attempt : ClaimedScanIntent → OutboxRow → Bool
is_claimed_attempt intent row = is_processing row.status && row.attempts == intent.attempts

-- An update under `claimedAttemptFilter`.
abbrev pub when_claimed : ClaimedScanIntent → (OutboxRow → OutboxRow) → OutboxRow → OutboxRow
when_claimed intent f row = if is_claimed_attempt intent row then f row else row

-- `startLockHeartbeat`: one tick.
unfoldable pub heartbeat : ℕ → ClaimedScanIntent → Outbox → Outbox
heartbeat now intent table =
    update_row (when_claimed intent (λ row. record row { locked_at = some now })) intent.id table

unfoldable pub mark_succeeded : ClaimedScanIntent → Outbox → Outbox
mark_succeeded intent table =
    update_row (when_claimed intent (λ row. record row { status = succeeded; locked_at = none }))
      intent.id table

abbrev pub backoff : ℕ → ℕ
backoff attempts = min 60000 (1000 * 2 ^ attempts)

abbrev pub failed_row : ℕ → ℕ → ClaimedScanIntent → OutboxRow → OutboxRow
failed_row now max_attempts intent row = record row {
  status = if ltb intent.attempts max_attempts then pending else failed;
  locked_at = none;
  next_attempt_at = now + backoff intent.attempts;
}

unfoldable pub mark_failed : ℕ → ClaimedScanIntent → ℕ → Outbox → Outbox
mark_failed now intent max_attempts table =
    update_row (when_claimed intent (failed_row now max_attempts intent)) intent.id table

-- Whether the lock is older than the timeout.
abbrev pub is_stuck : ℕ → ℕ → OutboxRow → Bool
is_stuck now timeout row =
    is_processing row.status
    && (elim row.locked_at [ none ↦ false | some at ↦ ltb (at + timeout) now ])

abbrev pub reclaimed_row : ℕ → ℕ → ℕ → OutboxRow → OutboxRow
reclaimed_row now timeout max_attempts row =
    if is_stuck now timeout row
    then record row {
      status = if leb max_attempts row.attempts then failed else pending;
      locked_at = none;
      next_attempt_at = now;
    }
    else row

unfoldable pub reclaim_stuck_scans : ℕ → ℕ → ℕ → Outbox → Outbox
reclaim_stuck_scans now timeout max_attempts table j = elim (table j) [
  | none ↦ none
  | some row ↦ some (reclaimed_row now timeout max_attempts row)
]

-- `scanOutboxResetGuard`
abbrev pub reset_row : ℕ → OutboxRow → OutboxRow
reset_row now row =
    if not (is_processing row.status)
    then record row { status = pending; next_attempt_at = now; locked_at = none }
    else row

-- `recordArtifactScanOutbox`: the insert, or the guarded update of a conflicting row.
unfoldable pub record_artifact_scan : ℕ → ℕ → Outbox → Outbox
record_artifact_scan now id table j =
    if id == j
    then elim (table j) [
      | none ↦
          some (record { status = pending; attempts = 0; next_attempt_at = now; locked_at = none })
      | some row ↦ some (reset_row now row)
    ]
    else table j
