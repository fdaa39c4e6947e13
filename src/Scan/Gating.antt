-- ===== src/Scan/Gating.antt =====
-- apps/scan-worker/src/scan-gating.ts. Scanner ids are compared for equality only and stand as
-- numbers; a set is a list in the order of insertion.
use hootifactory.Prelude.{
  ℕ, ◌≡◌, ◌≢◌, refl, sym, ◌∙◌, ap, ◌⊎◌, ◌↔◌, Bool, true, false, not, nat_beq_iff, All, Any, any_iff,
  contains_iff, ◌&&◌, ◌||◌, List, [], ◌∷◌, ◌++◌, arith, ◌==◌, nat_eq, if◌then◌else◌, contains, any,
  keep, Bool-cases, inl, inr,
}
use hootifactory.Scan.Finding.{FindingType, vuln, malware, type_eq}

-- A resolved scanner: its plugin's id and the finding types of its capabilities.
pub record ResolvedScanner : Type 0 where
  pub id : ℕ
  pub finding_types : List FindingType

-- `GATING_FINDING_TYPES`
abbrev pub gating_finding_types : List FindingType
gating_finding_types = malware ∷ vuln ∷ []

-- `set.add(t)`
abbrev pub add : List FindingType → FindingType → List FindingType
add set t = if contains set t then set else set ++ (t ∷ [])

-- `for (const t of types) set.add(t)`
abbrev pub add_all : List FindingType → List FindingType → List FindingType
add_all set [] = set
add_all set (t ∷ ts) = add_all (add set t) ts

-- `declaredBy.get(id) ?? []`: a later scanner with the same id replaces an earlier one.
unfoldable pub declared_by : List FindingType → List ResolvedScanner → ℕ → List FindingType
declared_by found [] id = found
declared_by found (s ∷ ss) id = declared_by (if s.id == id then s.finding_types else found) ss id

-- The loop over the scanners that did not fail.
unfoldable pub covered_by_succeeded :
    List ℕ → List FindingType → List ResolvedScanner → List FindingType
covered_by_succeeded failed set [] = set
covered_by_succeeded failed set (s ∷ ss) =
    covered_by_succeeded failed (if contains failed s.id then set else add_all set s.finding_types)
      ss

abbrev pub is_uncovered : List FindingType → List FindingType → FindingType → Bool
is_uncovered gating covered t = contains gating t && not (contains covered t)

-- The loop over the failed ids.
unfoldable pub collect_uncovered :
    List ResolvedScanner
    → List FindingType
    → List FindingType
    → List FindingType
    → List ℕ
    → List FindingType
collect_uncovered scanners gating covered set [] = set
collect_uncovered scanners gating covered set (id ∷ ids) =
    collect_uncovered scanners gating covered
      (add_all set (keep (is_uncovered gating covered) (declared_by [] scanners id))) ids

-- `errors` holds the id of the scanner of each failure.
unfoldable pub uncovered_gating_finding_types :
    List ResolvedScanner → List ℕ → List FindingType → List FindingType
uncovered_gating_finding_types scanners [] gating = []
uncovered_gating_finding_types scanners (e ∷ es) gating =
    collect_uncovered scanners gating (covered_by_succeeded (e ∷ es) [] scanners) [] (e ∷ es)

same_type :
    (set : List FindingType) (a b : FindingType) → (a == b) ≡ true → contains set a ≡ contains set b
same_type set a b h = rw ((type_eq.equals_iff a b).0 h)

contains-append :
    (xs ys : List FindingType) (t : FindingType)
    → contains (xs ++ ys) t ≡ (contains xs t || contains ys t)
contains-append [] ys t = refl
contains-append (x ∷ xs) ys t = rw (contains-append xs ys t) (ground arith)

contains-add :
    (set : List FindingType) (a t : FindingType)
    → contains (add set a) t ≡ (contains set t || a == t)
contains-add set a t = elim (Bool-cases (contains set a)) [
  | inl old ↦ rw old (ground (arith, same_type set a t))
  | inr new ↦ rw (new, contains-append set (a ∷ []) t) (ground arith)
]

contains-add_all :
    (set ts : List FindingType) (t : FindingType)
    → contains (add_all set ts) t ≡ (contains set t || contains ts t)
contains-add_all set [] t = ground arith
contains-add_all set (a ∷ ts) t =
    rw (contains-add_all (add set a) ts t, contains-add set a t) (ground arith)

same_test : (p : FindingType → Bool) (a t : FindingType) → (a == t) ≡ true → p a ≡ p t
same_test p a t h = ap p ((type_eq.equals_iff a t).0 h)

contains-keep :
    (p : FindingType → Bool) (ts : List FindingType) (t : FindingType)
    → contains (keep p ts) t ≡ (contains ts t && p t)
contains-keep p [] t = refl
contains-keep p (a ∷ ts) t = elim (Bool-cases (p a)) [
  | inl stays ↦ rw stays (ground (arith, contains-keep p ts t, same_test p a t))
  | inr goes ↦ rw goes (ground (arith, contains-keep p ts t, same_test p a t))
]

-- A scanner that did not fail and declares the type.
abbrev pub succeeds_with : List ℕ → FindingType → ResolvedScanner → Bool
succeeds_with failed t s = not (contains failed s.id) && contains s.finding_types t

covered_lem :
    (failed : List ℕ) (set : List FindingType) (ss : List ResolvedScanner) (t : FindingType)
    → contains (covered_by_succeeded failed set ss) t
      ≡ (contains set t || any (succeeds_with failed t) ss)
unfolding covered_by_succeeded
covered_lem failed set [] t = ground arith
covered_lem failed set (s ∷ ss) t = elim (Bool-cases (contains failed s.id)) [
  | inl fails ↦ rw (fails, covered_lem failed set ss t) refl
  | inr succeeds ↦
      rw
        (
          succeeds,
          covered_lem failed (add_all set s.finding_types) ss t,
          contains-add_all set s.finding_types t,
        )
        (ground arith)
]

collect_lem :
    (scanners : List ResolvedScanner) (gating covered set : List FindingType) (ids : List ℕ)
    (t : FindingType)
    → contains (collect_uncovered scanners gating covered set ids) t ≡ (
        contains set t
        || (any (λ id. contains (declared_by [] scanners id) t) ids
            && is_uncovered gating covered t))
unfolding collect_uncovered
collect_lem scanners gating covered set [] t = ground arith
collect_lem scanners gating covered set (id ∷ ids) t =
    rw
      (
        collect_lem scanners gating covered
            (add_all set (keep (is_uncovered gating covered) (declared_by [] scanners id))) ids t,
        contains-add_all set (keep (is_uncovered gating covered) (declared_by [] scanners id)) t,
        contains-keep (is_uncovered gating covered) (declared_by [] scanners id) t,
      )
      (ground arith)

-- The scanner of the id, the last one if more than one has it, declares the type.
abbrev pub Declares : List ResolvedScanner → FindingType → ℕ → Type 0
Declares [] t id = ⊥
Declares (s ∷ ss) t id =
    Declares ss t id
    ⊎ ((s.id ≡ id) × Any (λ x. x ≡ t) s.finding_types × All (λ other. other.id ≢ id) ss)

-- A scanner that did not fail declares the type.
abbrev pub Succeeds : List ℕ → FindingType → ResolvedScanner → Type 0
Succeeds failed t s = (Any (λ id. id ≡ s.id) failed → ⊥) × Any (λ x. x ≡ t) s.finding_types

declared_lem :
    (found : List FindingType) (ss : List ResolvedScanner) (t : FindingType) (id : ℕ)
    → (contains (declared_by found ss id) t ≡ true)
      ↔ (Declares ss t id ⊎ (Any (λ x. x ≡ t) found × All (λ other. other.id ≢ id) ss))
unfolding declared_by
declared_lem found [] t id = (
  λ h. inr ((contains_iff found t).0 h, tt),
  λ h. elim h [ inl no' ↦ absurd no' | inr old ↦ (contains_iff found t).1 old.0 ],
)
declared_lem found (s ∷ ss) t id = elim (Bool-cases (s.id == id)) [
  | inl same ↦
      let is : s.id ≡ id = (nat_beq_iff s.id id).0 same in
      let rest = declared_lem s.finding_types ss t id in
      rw same (
        λ h. elim (rest.0 h) [
          | inl later ↦ inl (inl later)
          | inr (own, alone) ↦ inl (inr (is, own, alone))
        ],
        λ h. elim h [
          | inl (inl later) ↦ rest.1 (inl later)
          | inl (inr (e, own, alone)) ↦ rest.1 (inr (own, alone))
          | inr old ↦ absurd (old.1.0 is)
        ],
      )
  | inr other ↦
      let apart : s.id ≢ id =
        (λ e. (let f : true ≡ false = sym ((nat_beq_iff s.id id).1 e) ∙ other in cc f)) in
      let rest = declared_lem found ss t id in
      rw other (
        λ h. elim (rest.0 h) [
          | inl later ↦ inl (inl later)
          | inr (old, alone) ↦ inr (old, (apart, alone))
        ],
        λ h. elim h [
          | inl (inl later) ↦ rest.1 (inl later)
          | inl (inr (e, own, alone)) ↦ absurd (apart e)
          | inr old ↦ rest.1 (inr (old.0, old.1.1))
        ],
      )
]

Declares-iff :
    (ss : List ResolvedScanner) (t : FindingType) (id : ℕ)
    → (contains (declared_by [] ss id) t ≡ true) ↔ Declares ss t id
Declares-iff ss t id =
    let all = declared_lem [] ss t id in
    (λ h. elim (all.0 h) [ inl here ↦ here | inr no' ↦ absurd no'.0 ], λ d. all.1 (inl d))

Succeeds-iff :
    (failed : List ℕ) (t : FindingType) (s : ResolvedScanner)
    → (succeeds_with failed t s ≡ true) ↔ Succeeds failed t s
Succeeds-iff failed t s =
    let fails = contains_iff failed s.id in
    let types = contains_iff s.finding_types t in
    elim (Bool-cases (contains failed s.id)) [
      | inl y ↦ rw y (λ h. absurd (cc h), λ h. absurd (h.0 (fails.0 y)))
      | inr n ↦ rw n (
        λ h. (λ i. (let f : true ≡ false = sym (fails.1 i) ∙ n in cc f), types.0 h),
        λ h. types.1 h.1,
      )
    ]

reported :
    (scanners : List ResolvedScanner) (errors : List ℕ) (gating : List FindingType)
    (t : FindingType)
    → contains (uncovered_gating_finding_types scanners errors gating) t ≡ (
        any (λ id. contains (declared_by [] scanners id) t) errors
        && (contains gating t && not (any (succeeds_with errors t) scanners)))
unfolding uncovered_gating_finding_types
reported scanners [] gating t = refl
reported scanners (e ∷ es) gating t =
    rw
      (
        collect_lem scanners gating (covered_by_succeeded (e ∷ es) [] scanners) [] (e ∷ es) t,
        covered_lem (e ∷ es) [] scanners t,
      )
      refl

-- A finding type is reported as uncovered exactly when a scanner that failed declares it, it gates,
-- and no scanner that succeeded declares it.
pub uncovered_gating_finding_types_lem :
    (scanners : List ResolvedScanner) (errors : List ℕ) (gating : List FindingType)
    (t : FindingType)
    → (contains (uncovered_gating_finding_types scanners errors gating) t ≡ true) ↔ (
        Any (Declares scanners t) errors
        × (contains gating t ≡ true)
        × (Any (Succeeds errors t) scanners → ⊥))
uncovered_gating_finding_types_lem scanners errors gating t =
    let fails = any_iff (Declares-iff scanners t) errors in
    let covers = any_iff (Succeeds-iff errors t) scanners in
    rw (reported scanners errors gating t) (
      λ h. (fails.0 (ground arith), ground arith, λ c. (let y = covers.1 c in ground arith)),
      λ h. elim (Bool-cases (any (succeeds_with errors t) scanners)) [
        | inl y ↦ absurd (h.2 (covers.0 y))
        | inr n ↦ ground (arith, fails.1 h.0, h.1)
      ],
    )
