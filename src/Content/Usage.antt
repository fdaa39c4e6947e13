-- ===== src/Content/Usage.antt =====
-- The bytes that an organisation uses: the sizes of the distinct digests that its repositories
-- reference.
use hootifactory.Prelude.{
  ℕ, zero, suc, ◌+◌, ◌<◌, ◌≡◌, refl, ap, ◌⊎◌, inl, inr, Bool, true, false, not, List, [], ◌∷◌,
  arith, nat_eq, nat_beq_iff, ◌==◌, if◌then◌else◌, keep, Bool-cases,
}
use hootifactory.Content.State.{BlobRef}
use hootifactory.Content.Quota.{org_already_references_digest}

sum_below : ℕ → (ℕ → ℕ) → ℕ
sum_below zero f = 0
sum_below (suc n) f = sum_below n f + f n

sum_same : (n : ℕ) (f g : ℕ → ℕ) → ((j : ℕ) → j < n → f j ≡ g j) → sum_below n f ≡ sum_below n g
unfolding sum_below
sum_same zero f g h = refl
sum_same (suc n) f g h =
    omega (arith, sum_same n f g (λ j lt. h j (omega arith)), h n (omega arith))

not_self : (k j : ℕ) → j < k → (k == j) ≡ false
not_self k j lt = ground arith

-- Two sums that differ at most at one index below the bound.
sum_change :
    (n k : ℕ) (f g : ℕ → ℕ)
    → ((j : ℕ) → (k == j) ≡ false → f j ≡ g j)
    → k < n
    → sum_below n g + f k ≡ sum_below n f + g k
unfolding sum_below
sum_change zero k f g h lt = absurd (omega arith)
sum_change (suc n) k f g h lt = elim (Bool-cases (k == n)) [
  | inl last ↦
      let e : k ≡ n = (nat_beq_iff k n).0 last in
      omega (arith, ap f e, ap g e, sum_same n f g (λ j below. h j (rw e (not_self n j below))))
  | inr other ↦ omega (arith, h n other, sum_change n k f g h (ground arith))
]

module _ (org_of : ℕ → ℕ) (size : ℕ → ℕ) (bound : ℕ) where
  abbrev charge_of : List BlobRef → ℕ → ℕ → ℕ
  charge_of refs org d = if org_already_references_digest org_of refs org d then size d else 0

  -- The digests in play are the numbers below the bound.
  pub usage : List BlobRef → ℕ → ℕ
  usage refs org = sum_below bound (charge_of refs org)

  sum_zero : (n : ℕ) → sum_below n (charge_of [] 0) ≡ 0
  unfolding sum_below org_already_references_digest
  sum_zero zero = refl
  sum_zero (suc n) = omega (arith, sum_zero n)

  pub usage_nil : (org : ℕ) → usage [] org ≡ 0
  unfolding usage org_already_references_digest
  usage_nil org = sum_zero bound

  cons_elsewhere :
      (ref : BlobRef) (refs : List BlobRef) (org d : ℕ)
      → (org_of ref.repository_id == org) ≡ false ⊎ ((ref.digest == d) ≡ false)
      → org_already_references_digest org_of (ref ∷ refs) org d
        ≡ org_already_references_digest org_of refs org d
  unfolding org_already_references_digest
  cons_elsewhere ref refs org d h = ground arith

  -- A new reference of another organisation.
  pub usage_other_org :
      (ref : BlobRef) (refs : List BlobRef) (org : ℕ)
      → (org_of ref.repository_id == org) ≡ false
      → usage (ref ∷ refs) org ≡ usage refs org
  unfolding usage
  usage_other_org ref refs org h =
      sum_same bound (charge_of (ref ∷ refs) org) (charge_of refs org)
        λ d lt. rw (cons_elsewhere ref refs org d (inl h))

  -- A change of the references to one digest.
  usage_change :
      (refs refs' : List BlobRef) (org d : ℕ)
      → ((j : ℕ)
          → (d == j) ≡ false
          → org_already_references_digest org_of refs' org j
            ≡ org_already_references_digest org_of refs org j)
      → d < bound
      → usage refs' org + charge_of refs org d ≡ usage refs org + charge_of refs' org d
  unfolding usage
  usage_change refs refs' org d h lt =
      sum_change bound d (charge_of refs org) (charge_of refs' org) (λ j ne. rw (h j ne)) lt

  cons_here :
      (ref : BlobRef) (refs : List BlobRef) (org : ℕ)
      → org_of ref.repository_id ≡ org
      → org_already_references_digest org_of (ref ∷ refs) org ref.digest ≡ true
  unfolding org_already_references_digest
  cons_here ref refs org e = ground arith

  -- A new reference adds its digest's size exactly when the organisation has no other to it.
  pub usage_cons :
      (ref : BlobRef) (refs : List BlobRef) (org : ℕ)
      → org_of ref.repository_id ≡ org
      → ref.digest < bound
      → usage (ref ∷ refs) org
        ≡ usage refs org
          + (if org_already_references_digest org_of refs org ref.digest
              then 0
              else size ref.digest)
  usage_cons ref refs org e lt = ground (
    arith,
    cons_here ref refs org e,
    usage_change refs (ref ∷ refs) org ref.digest (λ j ne. cons_elsewhere ref refs org j (inr ne))
        lt,
  )

  -- A delete that takes only references of one organisation to one digest.
  module _ (p : BlobRef → Bool) (org d : ℕ)
      (takes : (r : BlobRef) → p r ≡ true → (r.digest ≡ d) × (org_of r.repository_id ≡ org)) where
    abbrev left : List BlobRef → List BlobRef
    left = keep (λ r. not (p r))

    left_elsewhere :
        (refs : List BlobRef) (o j : ℕ)
        → ((org == o) ≡ false) ⊎ ((d == j) ≡ false)
        → org_already_references_digest org_of (left refs) o j
          ≡ org_already_references_digest org_of refs o j
    unfolding org_already_references_digest
    left_elsewhere [] o j h = refl
    left_elsewhere (r ∷ rs) o j h = elim (Bool-cases (p r)) [
      | inr stays ↦ rw stays (rw (left_elsewhere rs o j h))
      | inl goes ↦ rw goes (ground (arith, takes r goes, left_elsewhere rs o j h))
    ]

    pub usage-left_other :
        (refs : List BlobRef) (o : ℕ) → (org == o) ≡ false → usage (left refs) o ≡ usage refs o
    unfolding usage
    usage-left_other refs o h =
        sum_same bound (charge_of (left refs) o) (charge_of refs o)
          λ j lt. rw (left_elsewhere refs o j (inl h))

    had_one :
        (refs : List BlobRef) (r : BlobRef) (rs : List BlobRef)
        → keep p refs ≡ r ∷ rs
        → org_already_references_digest org_of refs org d ≡ true
    unfolding org_already_references_digest
    had_one [] r rs h = cc
    had_one (x ∷ xs) r rs h = elim (Bool-cases (p x)) [
      | inl goes ↦ ground (arith, takes x goes)
      | inr stays ↦ ground (arith, had_one xs r rs (rw stays at h))
    ]

    -- The organisation's usage falls by the digest's size exactly when no reference to it is left.
    pub usage-left :
        (refs : List BlobRef) (r : BlobRef) (rs : List BlobRef)
        → keep p refs ≡ r ∷ rs
        → d < bound
        → usage (left refs) org
            + (if org_already_references_digest org_of (left refs) org d then 0 else size d)
          ≡ usage refs org
    usage-left refs r rs h lt = ground (
      arith,
      had_one refs r rs h,
      usage_change refs (left refs) org d (λ j ne. left_elsewhere refs org j (inr ne)) lt,
    )
