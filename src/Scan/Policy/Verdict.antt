-- ===== src/Scan/Policy/Verdict.antt =====
-- The verdict of `evaluateScanPolicy` (apps/scan-worker/src/scan-policy.ts) finding by finding.
use hootifactory.Prelude.{
  ℕ, Bool, false, ◌&&◌, ◌||◌, List, [], Option, none, some, ◌==◌, ltb, leb, or_else, Text, text_eq,
}
use hootifactory.Scan.Finding.{low, severity_order, license, malware, type_eq, NormalizedFinding}
use hootifactory.Scan.Policy.{ScanPolicyRules, denied_title, blocks_malware}

abbrev threshold_of : ScanPolicyRules → ℕ
threshold_of policy = severity_order (or_else policy.block_on_severity low)

abbrev denied : ScanPolicyRules → List Text
denied policy = or_else policy.deny_licenses []

abbrev over : ℕ → NormalizedFinding → Bool
over limit f = elim f.cvss_score [ none ↦ false | some score ↦ ltb limit score ]

-- The four reasons for which a policy refuses one finding.
abbrev too_severe : ScanPolicyRules → NormalizedFinding → Bool
too_severe policy f = leb (threshold_of policy) (severity_order f.severity)

abbrev is_malware : ScanPolicyRules → NormalizedFinding → Bool
is_malware policy f = blocks_malware policy && f.kind == malware

-- A score above the limit, if there is one.
abbrev above : Option ℕ → NormalizedFinding → Bool
above none f = false
above (some limit) f = over limit f

abbrev too_risky : ScanPolicyRules → NormalizedFinding → Bool
too_risky policy f = above policy.max_cvss f

abbrev denied_license : ScanPolicyRules → NormalizedFinding → Bool
denied_license policy f = f.kind == license && denied_title (denied policy) f.title

-- What a policy says of one finding, without the others.
abbrev pub refuses : ScanPolicyRules → NormalizedFinding → Bool
refuses policy f =
    too_severe policy f || (is_malware policy f || (too_risky policy f || denied_license policy f))
