-- ===== src/Scan/Finding/Dedupe.antt =====
-- `dedupeFindings` of apps/scan-worker/src/scan-policy.ts against the set of keys.
use hootifactory.Prelude.{
  ◌≡◌, refl, Bool, true, false, not, ◌&&◌, List, [], ◌∷◌, arith, ◌==◌, Text, text_eq, contains,
  Bool-cases, inl, inr,
}
use hootifactory.Scan.Finding.{NormalizedFinding, finding_key, dedupe_from, dedupe_findings}

-- Every text stands once.
abbrev pub distinct : List Text → Bool
distinct [] = true
distinct (k ∷ ks) = not (contains ks k) && distinct ks

abbrev pub keys_of : List NormalizedFinding → List Text
keys_of [] = []
keys_of (f ∷ fs) = finding_key f ∷ keys_of fs

from_skip :
    (seen : List Text) (f : NormalizedFinding) (fs : List NormalizedFinding)
    → contains seen (finding_key f) ≡ true
    → dedupe_from seen (f ∷ fs) ≡ dedupe_from seen fs
unfolding dedupe_from
from_skip seen f fs h = rw h

from_take :
    (seen : List Text) (f : NormalizedFinding) (fs : List NormalizedFinding)
    → contains seen (finding_key f) ≡ false
    → dedupe_from seen (f ∷ fs) ≡ f ∷ dedupe_from (finding_key f ∷ seen) fs
unfolding dedupe_from
from_take seen f fs h = rw h

same_key : (seen : List Text) (a b : Text) → (a == b) ≡ true → contains seen a ≡ contains seen b
same_key seen a b h = rw ((text_eq.equals_iff a b).0 h)

from_keys :
    (seen : List Text) (fs : List NormalizedFinding) (k : Text)
    → contains (keys_of (dedupe_from seen fs)) k
      ≡ (contains (keys_of fs) k && not (contains seen k))
unfolding dedupe_from
from_keys seen [] k = refl
from_keys seen (f ∷ fs) k = elim (Bool-cases (contains seen (finding_key f))) [
  | inl old ↦
      rw (from_skip seen f fs old)
        (ground (arith, from_keys seen fs k, same_key seen (finding_key f) k))
  | inr new ↦
      rw (from_take seen f fs new)
        (ground (arith, from_keys (finding_key f ∷ seen) fs k, same_key seen (finding_key f) k))
]

self : (k : Text) → (k == k) ≡ true
self k = (text_eq.equals_iff k k).1 refl

from_distinct :
    (seen : List Text) (fs : List NormalizedFinding)
    → distinct (keys_of (dedupe_from seen fs)) ≡ true
unfolding dedupe_from
from_distinct seen [] = refl
from_distinct seen (f ∷ fs) = elim (Bool-cases (contains seen (finding_key f))) [
  | inl old ↦ rw (from_skip seen f fs old) (from_distinct seen fs)
  | inr new ↦ rw (from_take seen f fs new) (
      ground (
        arith,
        from_keys (finding_key f ∷ seen) fs (finding_key f),
        self (finding_key f),
        from_distinct (finding_key f ∷ seen) fs,
      ))
]

-- Deduplicated findings have distinct keys, and a key is among them exactly when it is the key of
-- one of the given findings.
pub dedupe_findings_lem :
    (items : List NormalizedFinding)
    → (distinct (keys_of (dedupe_findings items)) ≡ true)
      × ((k : Text) → contains (keys_of (dedupe_findings items)) k ≡ contains (keys_of items) k)
unfolding dedupe_findings
dedupe_findings_lem items = (from_distinct [] items, λ k. ground (arith, from_keys [] items k))
