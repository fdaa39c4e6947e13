-- ===== src/Scan/Outbox/Retries.antt =====
-- How the retries of apps/scan-worker/src/worker-loop.ts end.
use hootifactory.Prelude.{
  ℕ, zero, suc, ◌+◌, ◌≡◌, refl, true, false, List, [], ◌∷◌, none, some, arith, ◌==◌, nat_eq,
  nat_beq_iff, if◌then◌else◌, ltb,
}
use hootifactory.Scan.Outbox.{
  pending, failed, OutboxRow, Outbox, ClaimedScanIntent, update_row, is_due, claim_row,
  claim_scan_intents, failed_row, mark_failed,
}

abbrev pub fail_all : ℕ → ℕ → List ClaimedScanIntent → Outbox → Outbox
fail_all now m [] t = t
fail_all now m (i ∷ is) t = fail_all now m is (mark_failed now i m t)

-- A claim of the artifact's row once it is due, and the failure of the scan.
pub failing_cycle : ℕ → ℕ → Outbox → Outbox
failing_cycle m id t = elim (t id) [
  | none ↦ t
  | some row ↦
      let c = claim_scan_intents row.next_attempt_at (id ∷ []) t in
      fail_all row.next_attempt_at m c.0 c.1
]

pub failing_cycles : ℕ → ℕ → ℕ → Outbox → Outbox
failing_cycles m id zero t = t
failing_cycles m id (suc k) t = failing_cycles m id k (failing_cycle m id t)

claim_one :
    (now id : ℕ) (t : Outbox) (row : OutboxRow)
    → t id ≡ some row
    → is_due now row ≡ true
    → claim_scan_intents now (id ∷ []) t
      ≡ (record { id = id; attempts = row.attempts + 1 } ∷ [], update_row (claim_row now) id t)
unfolding claim_scan_intents
claim_one now id t row at due = rw (at, due, claim_scan_intents) refl

self : (id : ℕ) → (id == id) ≡ true
self id = (nat_beq_iff id id).1 refl

fail_one :
    (now m id : ℕ) (t : Outbox) (row : OutboxRow)
    → t id ≡ some row
    → mark_failed now
        (record { id = id; attempts = row.attempts + 1 })
        m
        (update_row (claim_row now) id t)
        id
      ≡ some
          (failed_row now m (record { id = id; attempts = row.attempts + 1 }) (claim_row now row))
unfolding mark_failed
fail_one now m id t row at = rw (mark_failed, self id, at, self (row.attempts + 1)) refl

pending_due : (row : OutboxRow) → row.status ≡ pending → is_due row.next_attempt_at row ≡ true
pending_due row wait = rw wait (ground arith)

-- The row behind one failing cycle.
abbrev after_failure : ℕ → ℕ → OutboxRow → OutboxRow
after_failure m id row =
    failed_row row.next_attempt_at m (record { id = id; attempts = row.attempts + 1 })
      (claim_row row.next_attempt_at row)

cycle_lem :
    (m id : ℕ) (t : Outbox) (row : OutboxRow)
    → t id ≡ some row
    → row.status ≡ pending
    → failing_cycle m id t id ≡ some (after_failure m id row)
unfolding failing_cycle
cycle_lem m id t row at wait =
    rw (at, failing_cycle, claim_one row.next_attempt_at id t row at (pending_due row wait))
      (fail_one row.next_attempt_at m id t row at)

after_status :
    (m id : ℕ) (row : OutboxRow)
    → (after_failure m id row).status ≡ (if ltb (row.attempts + 1) m then pending else failed)
after_status m id row = refl

-- A scan that fails each time is tried again until `maxAttempts` attempts are made, and then its row
-- is failed: a pending row with `row.attempts + k + 1 ≡ max_attempts` is pending after `k` failing
-- cycles and failed after one more, with that many attempts counted.
pub retries_end :
    (max_attempts id k : ℕ) (t : Outbox) (row : OutboxRow)
    → t id ≡ some row
    → row.status ≡ pending
    → row.attempts + suc k ≡ max_attempts
    → (r₁ r₂ : OutboxRow) × (failing_cycles max_attempts id k t id ≡ some r₁)
      × (r₁.status ≡ pending)
      × (failing_cycles max_attempts id (suc k) t id ≡ some r₂)
      × (r₂.status ≡ failed)
      × (r₂.attempts ≡ max_attempts)
unfolding failing_cycles
retries_end m id zero t row at wait e =
    let last : ltb (row.attempts + 1) m ≡ false = ground arith in
    (
      row,
      after_failure m id row,
      at,
      wait,
      cycle_lem m id t row at wait,
      rw last refl,
      omega (arith, e),
    )
retries_end m id (suc k) t row at wait e =
    let more : ltb (row.attempts + 1) m ≡ true = ground arith in
    retries_end m id k (failing_cycle m id t) (after_failure m id row)
      (cycle_lem m id t row at wait) (rw more refl) (omega (arith, e))
