-- ===== src/Scan/Outbox/Claims.antt =====
-- The claims of apps/scan-worker/src/worker-loop.ts along any sequence of writes to the outbox.
use hootifactory.Prelude.{
  ℕ, ◌≤◌, ◌≡◌, refl, sym, false, ◌&&◌, List, [], ◌∷◌, none, some, arith, ◌==◌, nat_eq, nat_beq_iff,
  ltb, leb, Bool-cases, Option-cases, inl, inr,
}
use hootifactory.Scan.Outbox.{
  succeeded, is_processing, OutboxRow, Outbox, ClaimedScanIntent, update_row, is_due, claim_row,
  claim_scan_intents, is_claimed_attempt, when_claimed, heartbeat, mark_succeeded, failed_row,
  mark_failed, is_stuck, reclaimed_row, reclaim_stuck_scans, reset_row, record_artifact_scan,
}

-- Every write of the worker and of a publish, with any arguments.
pub data Write : Outbox → Outbox → Type 0 where
  claims : (now : ℕ) (ids : List ℕ) (t : Outbox) → Write t (claim_scan_intents now ids t).1
  beats : (now : ℕ) (i : ClaimedScanIntent) (t : Outbox) → Write t (heartbeat now i t)
  succeeds : (i : ClaimedScanIntent) (t : Outbox) → Write t (mark_succeeded i t)
  fails : (now : ℕ) (i : ClaimedScanIntent) (m : ℕ) (t : Outbox) → Write t (mark_failed now i m t)
  reclaims : (now timeout m : ℕ) (t : Outbox) → Write t (reclaim_stuck_scans now timeout m t)
  publishes : (now id : ℕ) (t : Outbox) → Write t (record_artifact_scan now id t)

pub data Writes : Outbox → Outbox → Type 0 where
  none_yet : {t : Outbox} → Writes t t
  then_write : {t u v : Outbox} → Writes t u → Write u v → Writes t v

-- The attempt can no longer be finalised: another has begun, or this one is over.
abbrev pub LostRow : ℕ → OutboxRow → Type 0
LostRow attempt row =
    (attempt ≤ row.attempts) × ((is_processing row.status && row.attempts == attempt) ≡ false)

abbrev pub Lost : ℕ → ℕ → Outbox → Type 0
Lost attempt id table = (row : OutboxRow) × (table id ≡ some row) × LostRow attempt row

update_row-Lost :
    (f : OutboxRow → OutboxRow) (n id j : ℕ) (t : Outbox)
    → ((row : OutboxRow) → LostRow n row → LostRow n (f row))
    → Lost n j t
    → Lost n j (update_row f id t)
update_row-Lost f n id j t keeps (row, at, lost) = elim (Bool-cases (id == j)) [
  | inl same ↦ (f row, rw (same, at) refl, keeps row lost)
  | inr other ↦ (row, rw (other, at) refl, lost)
]

claim_row-LostRow : (now n : ℕ) (row : OutboxRow) → LostRow n row → LostRow n (claim_row now row)
claim_row-LostRow now n row (le, lost) = ground arith

claims-Lost :
    (now : ℕ) (ids : List ℕ) (n j : ℕ) (t : Outbox)
    → Lost n j t
    → Lost n j (claim_scan_intents now ids t).1
unfolding claim_scan_intents
claims-Lost now [] n j t lost = lost
claims-Lost now (id ∷ ids) n j t lost =
    let later : Lost n j (claim_scan_intents now ids t).1 = claims-Lost now ids n j t lost in
    elim (Option-cases ((claim_scan_intents now ids t).1 id)) [
      | inl missing ↦ rw (missing, claim_scan_intents) later
      | inr (row, at) ↦ elim (Bool-cases (is_due now row)) [
        | inl due ↦
            rw (at, due, claim_scan_intents)
              (update_row-Lost (claim_row now) n id j (claim_scan_intents now ids t).1
                (claim_row-LostRow now n) later)
        | inr early ↦ rw (at, early, claim_scan_intents) later
      ]
    ]

when_claimed-LostRow :
    (i : ClaimedScanIntent) (f : OutboxRow → OutboxRow) (n : ℕ)
    → ((row : OutboxRow) → LostRow n row → LostRow n (f row))
    → (row : OutboxRow) → LostRow n row
    → LostRow n (when_claimed i f row)
when_claimed-LostRow i f n keeps row lost = elim (Bool-cases (is_claimed_attempt i row)) [
  | inl yes' ↦ rw yes' (keeps row lost)
  | inr no' ↦ rw no' lost
]

failed_row-LostRow :
    (now m : ℕ) (i : ClaimedScanIntent) (n : ℕ) (row : OutboxRow)
    → LostRow n row
    → LostRow n (failed_row now m i row)
failed_row-LostRow now m i n row (le, lost) =
    (le, elim (Bool-cases (ltb i.attempts m)) [ inl y ↦ rw y refl | inr n' ↦ rw n' refl ])

reclaimed_row-LostRow :
    (now timeout m n : ℕ) (row : OutboxRow)
    → LostRow n row
    → LostRow n (reclaimed_row now timeout m row)
reclaimed_row-LostRow now timeout m n row lost = elim (Bool-cases (is_stuck now timeout row)) [
  | inr no' ↦ rw no' lost
  | inl stuck ↦
      rw stuck
        (lost.0, elim (Bool-cases (leb m row.attempts)) [ inl y ↦ rw y refl | inr n' ↦ rw n' refl ])
]

reset_row-LostRow : (now n : ℕ) (row : OutboxRow) → LostRow n row → LostRow n (reset_row now row)
reset_row-LostRow now n row lost = elim (Bool-cases (is_processing row.status)) [
  | inl busy ↦ rw busy lost
  | inr free ↦ rw free (lost.0, refl)
]

publish-Lost : (now id n j : ℕ) (t : Outbox) → Lost n j t → Lost n j (record_artifact_scan now id t)
unfolding record_artifact_scan
publish-Lost now id n j t (row, at, lost) = elim (Bool-cases (id == j)) [
  | inl same ↦ (reset_row now row, rw (same, at) refl, reset_row-LostRow now n row lost)
  | inr other ↦ (row, rw (other, at) refl, lost)
]

Write-Lost : {t u : Outbox} (n j : ℕ) → Write t u → Lost n j t → Lost n j u
unfolding heartbeat mark_succeeded mark_failed reclaim_stuck_scans
Write-Lost n j (claims now ids t) lost = claims-Lost now ids n j t lost
Write-Lost n j (beats now i t) lost =
    let f : OutboxRow → OutboxRow = λ row. record row { locked_at = some now } in
    update_row-Lost (when_claimed i f) n i.id j t (when_claimed-LostRow i f n (λ row h. h)) lost
Write-Lost n j (succeeds i t) lost =
    let f : OutboxRow → OutboxRow = λ row. record row { status = succeeded; locked_at = none } in
    update_row-Lost (when_claimed i f) n i.id j t
      (when_claimed-LostRow i f n (λ row h. (h.0, refl))) lost
Write-Lost n j (fails now i m t) lost =
    update_row-Lost (when_claimed i (failed_row now m i)) n i.id j t
      (when_claimed-LostRow i (failed_row now m i) n (failed_row-LostRow now m i n)) lost
Write-Lost n j (reclaims now timeout m t) (row, at, lost) = (
  reclaimed_row now timeout m row,
  rw (at, reclaim_stuck_scans) refl,
  reclaimed_row-LostRow now timeout m n row lost,
)
Write-Lost n j (publishes now id t) lost = publish-Lost now id n j t lost

Writes-Lost : {t u : Outbox} (n j : ℕ) → Writes t u → Lost n j t → Lost n j u
Writes-Lost n j none_yet lost = lost
Writes-Lost n j (then_write ws w) lost = Write-Lost n j w (Writes-Lost n j ws lost)

when_claimed-no_op :
    (i : ClaimedScanIntent) (f : OutboxRow → OutboxRow) (t : Outbox)
    → Lost i.attempts i.id t
    → (j : ℕ) → update_row (when_claimed i f) i.id t j ≡ t j
when_claimed-no_op i f t (row, at, (le, lost)) j = elim (Bool-cases (i.id == j)) [
  | inl same ↦
      let here : t j ≡ some row = rw (sym ((nat_beq_iff i.id j).0 same)) at in
      rw (same, here, lost) refl
  | inr other ↦ rw other refl
]

-- Once an attempt is lost (its row counts at least that attempt and is not processing it), then
-- after any writes to the outbox the worker that claimed it changes nothing: its heartbeat and its
-- two terminal writes leave every row as it is.
pub stale_worker_changes_nothing :
    {t u : Outbox} (intent : ClaimedScanIntent) (now max_attempts : ℕ)
    → Writes t u
    → Lost intent.attempts intent.id t
    → (j : ℕ)
    → (heartbeat now intent u j ≡ u j)
      × (mark_succeeded intent u j ≡ u j)
      × (mark_failed now intent max_attempts u j ≡ u j)
unfolding heartbeat mark_succeeded mark_failed
stale_worker_changes_nothing {u = u} i now m ws lost j =
    let later : Lost i.attempts i.id u = Writes-Lost i.attempts i.id ws lost in
    (
      when_claimed-no_op i (λ row. record row { locked_at = some now }) u later j,
      when_claimed-no_op i (λ row. record row { status = succeeded; locked_at = none }) u later j,
      when_claimed-no_op i (failed_row now m i) u later j,
    )
