-- ===== src/Scan/Finding.antt =====
-- packages/scan-core/src/index.ts (severities, finding types, findings) and `dedupeFindings` of
-- apps/scan-worker/src/scan-policy.ts.
pub mod Dedupe
use hootifactory.Prelude.{
  ℕ, zero, suc, ◌≤◌, ◌≡◌, ◌↔◌, refl, ap, Bool, true, false, not, ◌&&◌, ◌||◌, List, [], ◌∷◌, ◌++◌,
  map, Option, none, some, arith, ◌==◌, Comparable, nat_beq, nat_beq_iff, if◌then◌else◌, leb,
  or_else, Text, codes, text_eq, contains, Bool-cases,
}

-- `SEVERITIES`
pub data Severity : Type 0 where
  critical high medium low negligible unknown : Severity

-- `SEVERITY_ORDER`
abbrev pub severity_order : Severity → ℕ
severity_order critical = 5
severity_order high = 4
severity_order medium = 3
severity_order low = 2
severity_order negligible = 1
severity_order unknown = 0

abbrev pub max_severity : Severity → Severity → Severity
max_severity a b = if leb (severity_order b) (severity_order a) then a else b

-- `FINDING_TYPES`
pub data FindingType : Type 0 where
  vuln license secret malware : FindingType

abbrev pub finding_type_text : FindingType → Text
finding_type_text vuln = codes "vuln"
finding_type_text license = codes "license"
finding_type_text secret = codes "secret"
finding_type_text malware = codes "malware"

abbrev type_index : FindingType → ℕ
type_index vuln = 0
type_index license = 1
type_index secret = 2
type_index malware = 3

abbrev type_at : ℕ → FindingType
type_at zero = vuln
type_at (suc zero) = license
type_at (suc (suc zero)) = secret
type_at _ = malware

type_at-type_index : (t : FindingType) → type_at (type_index t) ≡ t
type_at-type_index vuln = refl
type_at-type_index _ = refl

abbrev pub type_beq : FindingType → FindingType → Bool
type_beq a b = nat_beq (type_index a) (type_index b)

pub type_beq_iff : (a b : FindingType) → (type_beq a b ≡ true) ↔ (a ≡ b)
type_beq_iff a b = (
  λ h. same ((nat_beq_iff (type_index a) (type_index b)).0 h),
  λ e. (nat_beq_iff (type_index a) (type_index b)).1 (ap type_index e),
)
  where
    same : type_index a ≡ type_index b → a ≡ b
    same h = cc (type_at-type_index a, type_at-type_index b, ap type_at h)

instance abbrev pub type_eq : Comparable FindingType
type_eq = record { equals = type_beq; equals_iff = type_beq_iff }

-- The fields of `NormalizedFinding` that the policy reads; a CVSS score in tenths.
pub record NormalizedFinding : Type 0 where
  pub kind : FindingType
  pub vuln_id : Option Text
  pub purl : Option Text
  pub package_name : Option Text
  pub severity : Severity
  pub cvss_score : Option ℕ
  pub title : Option Text

-- `findingKey`, the template that `dedupeFindings` writes out too.
unfoldable pub finding_key : NormalizedFinding → Text
finding_key f =
    finding_type_text f.kind
    ++ codes ":"
    ++ or_else f.vuln_id (or_else f.title [])
    ++ codes ":"
    ++ or_else f.purl (or_else f.package_name [])

-- The loop of `dedupeFindings`, with the keys seen so far.
unfoldable pub dedupe_from : List Text → List NormalizedFinding → List NormalizedFinding
dedupe_from seen [] = []
dedupe_from seen (f ∷ fs) =
    if contains seen (finding_key f)
    then dedupe_from seen fs
    else f ∷ dedupe_from (finding_key f ∷ seen) fs

unfoldable pub dedupe_findings : List NormalizedFinding → List NormalizedFinding
dedupe_findings items = dedupe_from [] items
