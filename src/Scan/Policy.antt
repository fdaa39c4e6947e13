-- ===== src/Scan/Policy.antt =====
-- `evaluateScanPolicy` of apps/scan-worker/src/scan-policy.ts.
pub mod Verdict
use hootifactory.Prelude.{
  ℕ, Bool, true, false, not, ◌&&◌, ◌||◌, List, [], ◌∷◌, Option, none, some, ◌==◌, if◌then◌else◌,
  ltb, leb, max, or_else, Text, codes, text_eq, contains, any,
}
use hootifactory.Scan.Finding.{
  Severity, low, unknown, severity_order, max_severity, FindingType, license, malware, type_eq,
  NormalizedFinding,
}

-- `POLICY_MODES`
pub data PolicyMode : Type 0 where
  audit enforce : PolicyMode

-- `ArtifactState` without `pending`
pub data ArtifactState : Type 0 where
  clean quarantined blocked : ArtifactState

-- `ScanPolicyRules`: a field that is null or absent is `none`. The limit is in tenths.
pub record ScanPolicyRules : Type 0 where
  pub mode : Option PolicyMode
  pub block_on_severity : Option Severity
  pub block_on_malware : Option Text
  pub deny_licenses : Option (List Text)
  pub max_cvss : Option ℕ

-- `policy?.…` on a missing policy
abbrev pub no_policy : ScanPolicyRules
no_policy = record {
  mode = none;
  block_on_severity = none;
  block_on_malware = none;
  deny_licenses = none;
  max_cvss = none;
}

pub record Reasons : Type 0 where
  pub severity_violates : Bool
  pub malware_violates : Bool
  pub cvss_violates : Bool
  pub license_violates : Bool

pub record ScanPolicyEvaluation : Type 0 where
  pub highest : Severity
  pub highest_cvss : ℕ
  pub mode : PolicyMode
  pub threshold : Severity
  pub reasons : Reasons
  pub state : ArtifactState

-- The loop of `summarizeFindings`.
unfoldable pub summarize_from : Severity → ℕ → List NormalizedFinding → Severity × ℕ
summarize_from highest cvss [] = (highest, cvss)
summarize_from highest cvss (f ∷ fs) =
    summarize_from (max_severity highest f.severity)
      (elim f.cvss_score [ none ↦ cvss | some score ↦ max cvss score ]) fs

unfoldable pub summarize_findings : List NormalizedFinding → Severity × ℕ
summarize_findings findings = summarize_from unknown 0 findings

abbrev pub is_empty {ℓ} : {A : Type ℓ} → List A → Bool
is_empty [] = true
is_empty (_ ∷ _) = false

-- `!!finding.title && denyLicenses.includes(finding.title)`
abbrev pub denied_title : List Text → Option Text → Bool
denied_title deny none = false
denied_title deny (some title) = not (is_empty title) && contains deny title

abbrev pub blocks_malware : ScanPolicyRules → Bool
blocks_malware policy = not (or_else policy.block_on_malware (codes "true") == codes "false")

unfoldable pub violations : ScanPolicyRules → Severity × ℕ → List NormalizedFinding → Reasons
violations policy summary findings = record {
  severity_violates =
      not (is_empty findings)
      && leb (severity_order (or_else policy.block_on_severity low)) (severity_order summary.0);
  malware_violates = blocks_malware policy && any (λ f. f.kind == malware) findings;
  cvss_violates = elim policy.max_cvss [ none ↦ false | some limit ↦ ltb limit summary.1 ];
  license_violates =
      not (is_empty (or_else policy.deny_licenses []))
      && any (λ f. f.kind == license && denied_title (or_else policy.deny_licenses []) f.title)
          findings;
}

abbrev pub violates : Reasons → Bool
violates r = r.severity_violates || (r.malware_violates || (r.cvss_violates || r.license_violates))

abbrev pub state_of : PolicyMode → Bool → ArtifactState
state_of audit true = quarantined
state_of enforce true = blocked
state_of mode false = clean

unfoldable pub evaluate_scan_policy :
    List NormalizedFinding → Option ScanPolicyRules → ScanPolicyEvaluation
evaluate_scan_policy findings rules =
    let policy = or_else rules no_policy in
    let summary = summarize_findings findings in
    let reasons = violations policy summary findings in
    record {
      highest = summary.0;
      highest_cvss = summary.1;
      mode = or_else policy.mode audit;
      threshold = or_else policy.block_on_severity low;
      reasons = reasons;
      state = state_of (or_else policy.mode audit) (violates reasons);
    }
