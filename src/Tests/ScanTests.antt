-- ===== src/Tests/ScanTests.antt =====
-- Tests of apps/scan-worker/src and packages/scan-core/src.
use hootifactory.Prelude.{
  ◌≡◌, refl, ◌↔◌, Any, true, [], ◌∷◌, none, some, arith, ◌==◌, nat_eq, if◌then◌else◌, Text, codes,
  text_eq, contains,
}
use hootifactory.Scan.Finding.{high, vuln, malware, type_eq, NormalizedFinding, dedupe_findings}
use hootifactory.Scan.Finding.Dedupe.{distinct, keys_of, dedupe_findings_lem}
use hootifactory.Scan.Policy.{enforce, ScanPolicyRules, no_policy}
use hootifactory.Scan.Gating.{
  ResolvedScanner, gating_finding_types, uncovered_gating_finding_types, Declares, Succeeds,
  uncovered_gating_finding_types_lem,
}
use hootifactory.Scan.Outbox.{
  pending, processing, failed, OutboxRow, Outbox, ClaimedScanIntent, heartbeat, mark_succeeded,
  mark_failed,
}
use hootifactory.Scan.Outbox.Claims.{none_yet, stale_worker_changes_nothing}
use hootifactory.Scan.Outbox.Retries.{failing_cycles, retries_end}

abbrev cve : NormalizedFinding
cve = record {
  kind = vuln;
  vuln_id = some (codes "CVE-2024-1");
  purl = none;
  package_name = some (codes "zlib");
  severity = high;
  cvss_score = some 81;
  title = none;
}

abbrev strict : ScanPolicyRules
strict = record no_policy { mode = some enforce; max_cvss = some 70 }

abbrev clam_av : ResolvedScanner
clam_av = record { id = 1; finding_types = malware ∷ [] }

abbrev grype : ResolvedScanner
grype = record { id = 2; finding_types = vuln ∷ [] }

abbrev waiting : OutboxRow
waiting = record { status = pending; attempts = 1; next_attempt_at = 5; locked_at = none }

abbrev one_waiting : Outbox
one_waiting id = if id == 7 then some waiting else none

abbrev running : OutboxRow
running = record { status = processing; attempts = 2; next_attempt_at = 5; locked_at = some 10 }

abbrev one_running : Outbox
one_running id = if id == 7 then some running else none

-- The intent of an attempt before the one that runs.
abbrev old_intent : ClaimedScanIntent
old_intent = record { id = 7; attempts = 1 }

dedupe_findings_lem_example :
    (distinct (keys_of (dedupe_findings (cve ∷ cve ∷ []))) ≡ true)
    × ((k : Text)
        → contains (keys_of (dedupe_findings (cve ∷ cve ∷ []))) k
          ≡ contains (keys_of (cve ∷ cve ∷ [])) k)
dedupe_findings_lem_example = dedupe_findings_lem (cve ∷ cve ∷ [])

uncovered_gating_finding_types_lem_example :
    (contains
        (uncovered_gating_finding_types (clam_av ∷ grype ∷ []) (1 ∷ []) gating_finding_types)
        malware
      ≡ true)
    ↔ (Any (Declares (clam_av ∷ grype ∷ []) malware) (1 ∷ [])
        × (contains gating_finding_types malware ≡ true)
        × (Any (Succeeds (1 ∷ []) malware) (clam_av ∷ grype ∷ []) → ⊥))
uncovered_gating_finding_types_lem_example =
    uncovered_gating_finding_types_lem (clam_av ∷ grype ∷ []) (1 ∷ []) gating_finding_types malware

stale_worker_changes_nothing_example :
    (heartbeat 20 old_intent one_running 7 ≡ one_running 7)
    × (mark_succeeded old_intent one_running 7 ≡ one_running 7)
    × (mark_failed 20 old_intent 3 one_running 7 ≡ one_running 7)
stale_worker_changes_nothing_example =
    stale_worker_changes_nothing {t = one_running} {u = one_running} old_intent 20 3 none_yet
      (running, refl, (omega arith, refl)) 7

retries_end_example :
    (r₁ r₂ : OutboxRow) × (failing_cycles 3 7 1 one_waiting 7 ≡ some r₁)
    × (r₁.status ≡ pending)
    × (failing_cycles 3 7 2 one_waiting 7 ≡ some r₂)
    × (r₂.status ≡ failed)
    × (r₂.attempts ≡ 3)
retries_end_example = retries_end 3 7 1 one_waiting waiting refl refl refl
