-- ===== src/Packages/Replace/Exact.antt =====
-- The storage counter and the references behind `upsertPackageVersionWithBlobRef`
-- (packages/registry-platform/src/packages/versions.ts).
use hootifactory.Prelude.{
  ℕ, ◌+◌, ◌<◌, ◌≡◌, ◌≢◌, refl, sym, ◌∙◌, inl, inr, Bool, true, false, not, List, [], ◌∷◌, Option,
  none, some, arith, ◌==◌, nat_eq, nat_beq_iff, if◌then◌else◌, leb, keep, find_first, Bool-cases,
  Option-cases, List-cases,
}
use hootifactory.Content.State.{BlobRef, Store, RepoContext, ok, >>-eq-ok, same_ref}
use hootifactory.Content.Quota.{shifted, adjust_storage_used, org_already_references_digest}
use hootifactory.Content.Blobs.{
  BlobPut, StoredBlob, RefInput, ref_row, ensure_active_blob, insert_counted, delete_blob_refs,
}
use hootifactory.Content.Refs.{refs_to, Inv, delete_blob_refs-Inv}
use hootifactory.Content.Counts.{counted_new, counted_old, new_store, counted-Inv, adjust-Inv}
use hootifactory.Content.Usage.{usage, usage_cons, usage_other_org, usage-left, usage-left_other}
use hootifactory.Content.Accounting.{Charged, Sizes, adjust-Charged}
use hootifactory.Packages.Lookup.{ok_pair}
use hootifactory.Packages.Replace.{net_delta, drop_previous, charge_for, replace_blob_ref}

pub nothing_kept :
    (p : BlobRef → Bool) (refs : List BlobRef)
    → keep p refs ≡ []
    → keep (λ r. not (p r)) refs ≡ refs
nothing_kept p [] h = refl
nothing_kept p (r ∷ rs) h = elim (Bool-cases (p r)) [
  | inl goes ↦ absurd (let f : r ∷ keep p rs ≡ [] = rw goes at h in cc f)
  | inr stays ↦ rw (stays, nothing_kept p rs (rw stays at h)) refl
]

kept_counts :
    (d : ℕ) (p : BlobRef → Bool) (refs : List BlobRef) (r : BlobRef) (rs : List BlobRef)
    → ((x : BlobRef) → p x ≡ true → x.digest ≡ d)
    → keep p refs ≡ r ∷ rs
    → refs_to d refs ≢ 0
kept_counts d p [] r rs only h = cc
kept_counts d p (x ∷ xs) r rs only h = elim (Bool-cases (p x)) [
  | inl goes ↦ ground (arith, only x goes)
  | inr stays ↦ ground (arith, kept_counts d p xs r rs only (rw stays at h))
]

shifted_net : (u charge refund : ℕ) → shifted (u + refund) (net_delta charge refund) ≡ u + charge
shifted_net u charge refund = elim (Bool-cases (leb refund charge)) [
  | inl more ↦ rw more (ground arith)
  | inr less' ↦ rw less' (ground arith)
]

module _ (org_of : ℕ → ℕ) (size : ℕ → ℕ) (bound : ℕ) where
  -- The references of a repository's organisation to one digest.
  ref_takes :
      (ctx : RepoContext) (d : ℕ) (input : RefInput) (r : BlobRef)
      → org_of ctx.repo_id ≡ ctx.org_id
      → same_ref (ref_row ctx d input) r ≡ true
      → (r.digest ≡ d) × (org_of r.repository_id ≡ ctx.org_id)
  ref_takes ctx d input r own h =
      let same_repo : r.repository_id ≡ ctx.repo_id = ground arith in
      (ground arith, rw same_repo own)

  dropped-usage :
      (now : ℕ) (ctx : RepoContext) (input : RefInput) (d : ℕ) (s : Store)
      → org_of ctx.repo_id ≡ ctx.org_id
      → d < bound
      → Inv s
      → Sizes org_of size bound s.blobs
      → usage org_of size bound s.blob_refs ctx.org_id
        ≡ usage org_of size bound
            (drop_previous org_of now ctx input (some d) s).1.blob_refs
            ctx.org_id
          + (drop_previous org_of now ctx input (some d) s).0
  unfolding drop_previous delete_blob_refs
  dropped-usage now ctx input d s own below inv sized =
      let p = same_ref (ref_row ctx d input) in
      let takes = λ (r : BlobRef) (h : p r ≡ true). ref_takes ctx d input r own h in
      let s₁ = delete_blob_refs now p s in
      elim (List-cases (keep p s.blob_refs)) [
        | inl nothing ↦ elim (Option-cases (s.blobs d)) [
          | inl no_row ↦
              rw (no_row, drop_previous, nothing_kept p s.blob_refs nothing) (omega arith)
          | inr (b, found) ↦
              rw (found, drop_previous, nothing, nothing_kept p s.blob_refs nothing) (omega arith)
        ]
        | inr (r, rs, some') ↦ elim (Option-cases (s.blobs d)) [
          | inl no_row ↦
              absurd (
                kept_counts d p s.blob_refs r rs (λ x h. (takes x h).0) some'
                  (rw no_row at (inv d)))
          | inr (b, found) ↦
              let left =
                usage-left org_of size bound p ctx.org_id d takes s.blob_refs r rs some' below in
              let b_size : b.size_bytes ≡ size d = sized d b found in
              elim (Bool-cases (org_already_references_digest org_of s₁.blob_refs ctx.org_id d)) [
                | inl still ↦ rw (found, drop_previous, some', still) (sym (rw still at left))
                | inr gone ↦ rw (found, drop_previous, some', gone, b_size) (sym (rw gone at left))
              ]
        ]
      ]

  dropped-usage_other :
      (now : ℕ) (ctx : RepoContext) (input : RefInput) (d : ℕ) (s : Store) (o : ℕ)
      → org_of ctx.repo_id ≡ ctx.org_id
      → (ctx.org_id == o) ≡ false
      → usage org_of size bound (drop_previous org_of now ctx input (some d) s).1.blob_refs o
        ≡ usage org_of size bound s.blob_refs o
  unfolding drop_previous delete_blob_refs
  dropped-usage_other now ctx input d s o own other =
      usage-left_other org_of size bound (same_ref (ref_row ctx d input)) ctx.org_id d
        (λ r h. ref_takes ctx d input r own h) s.blob_refs o other

  -- What is left when the previous references are gone, with the quotas as they were.
  record IsDropped (s s₁ : Store) (org refund : ℕ) : Type 0 where
    inv : Inv s₁
    objects : s₁.objects ≡ s.objects
    quotas : s₁.quotas ≡ s.quotas
    here :
        usage org_of size bound s.blob_refs org ≡ usage org_of size bound s₁.blob_refs org + refund
    elsewhere :
        (o : ℕ)
        → (org == o) ≡ false
        → usage org_of size bound s₁.blob_refs o ≡ usage org_of size bound s.blob_refs o

  drop-IsDropped :
      (now : ℕ) (ctx : RepoContext) (input : RefInput) (previous : Option ℕ) (s : Store)
      → org_of ctx.repo_id ≡ ctx.org_id
      → ((d : ℕ) → previous ≡ some d → d < bound)
      → Inv s
      → Sizes org_of size bound s.blobs
      → IsDropped s
          (drop_previous org_of now ctx input previous s).1
          ctx.org_id
          (drop_previous org_of now ctx input previous s).0
  unfolding drop_previous delete_blob_refs
  drop-IsDropped now ctx input none s own below kept sized = record {
    inv = kept;
    objects = refl;
    quotas = refl;
    here = omega arith;
    elsewhere = λ o other. refl;
  }
  drop-IsDropped now ctx input (some d) s own below kept sized = record {
    inv = delete_blob_refs-Inv now (same_ref (ref_row ctx d input)) s kept;
    objects = refl;
    quotas = refl;
    here = dropped-usage now ctx input d s own (below d refl) kept sized;
    elsewhere = λ o other. dropped-usage_other now ctx input d s o own other;
  }

  -- The new reference, and what its organisation is charged for it.
  counted-usage :
      (s₁ : Store) (ctx : RepoContext) (put : BlobPut) (input : RefInput)
      → org_of ctx.repo_id ≡ ctx.org_id
      → put.digest < bound
      → put.size ≡ size put.digest
      → let r =
          insert_counted
            (ensure_active_blob s₁ put.digest put.size)
            put.digest
            (ref_row ctx put.digest input) in
        (usage org_of size bound r.2.blob_refs ctx.org_id
          ≡ usage org_of size bound s₁.blob_refs ctx.org_id + charge_for org_of ctx put r.1 s₁)
        × ((o : ℕ)
            → (ctx.org_id == o) ≡ false
            → usage org_of size bound r.2.blob_refs o ≡ usage org_of size bound s₁.blob_refs o)
        × (r.2.quotas ≡ s₁.quotas)
  unfolding new_store ensure_active_blob
  counted-usage s₁ ctx put input own below sized =
      let ref = ref_row ctx put.digest input in
      elim (Option-cases (find_first (same_ref ref) s₁.blob_refs)) [
        | inr (old, found) ↦
            rw (counted_old s₁ put.size ref found) (omega arith, λ o other. refl, refl)
        | inl new ↦
            let more = usage_cons org_of size bound ref s₁.blob_refs ctx.org_id own below in
            let apart = λ (o : ℕ) (other : (ctx.org_id == o) ≡ false).
              usage_other_org org_of size bound ref s₁.blob_refs o (rw own other) in
            elim (Bool-cases
              (org_already_references_digest org_of s₁.blob_refs ctx.org_id put.digest)) [
                | inl already ↦
                    rw (counted_new s₁ put.size ref new, already) (rw already at more, apart, refl)
                | inr first ↦
                    rw (counted_new s₁ put.size ref new, first, sized)
                      (rw first at more, apart, refl)
              ]
      ]

  -- The counters behind a net change, when the references changed by a charge and a refund.
  net-Charged :
      (s t : Store) (org charge refund left : ℕ)
      → Charged org_of size bound s
      → t.quotas ≡ s.quotas
      → usage org_of size bound s.blob_refs org ≡ left + refund
      → usage org_of size bound t.blob_refs org ≡ left + charge
      → ((o : ℕ)
          → (org == o) ≡ false
          → usage org_of size bound t.blob_refs o ≡ usage org_of size bound s.blob_refs o)
      → Charged org_of size bound
          (if charge == refund then t else adjust_storage_used t org (net_delta charge refund))
  net-Charged s t org charge refund left charged quotas before behind apart =
      elim (Bool-cases (charge == refund)) [
        | inl even ↦ rw even λ o q at. elim (Bool-cases (org == o)) [
          | inl same ↦
              let e : org ≡ o = (nat_beq_iff org o).0 same in
              rw (charged o q (rw quotas at at), ← e, before, behind) (ground arith)
          | inr other ↦ rw (charged o q (rw quotas at at), apart o other) refl
        ]
        | inr uneven ↦ rw uneven (
            adjust-Charged org_of size bound t org (net_delta charge refund) λ o q at.
              elim (Bool-cases (org == o)) [
                | inl same ↦
                    let e : org ≡ o = (nat_beq_iff org o).0 same in
                    rw (same, charged o q (rw quotas at at), ← e, before, behind)
                      (shifted_net left charge refund)
                | inr other ↦ rw (other, charged o q (rw quotas at at), apart o other) refl
              ])
      ]

  -- The part of the transaction on the content store keeps its books.
  pub replace-Books :
      (now : ℕ) (ctx : RepoContext) (put : BlobPut) (input : RefInput) (previous : Option ℕ)
      (s : Store) {stored : StoredBlob} {t : Store}
      → org_of ctx.repo_id ≡ ctx.org_id
      → put.digest < bound
      → put.size ≡ size put.digest
      → ((d : ℕ) → previous ≡ some d → d < bound)
      → s.objects put.digest ≡ true
      → Inv s
      → Sizes org_of size bound s.blobs
      → Charged org_of size bound s
      → replace_blob_ref org_of now ctx put input previous s ≡ ok (stored, t)
      → Inv t × Charged org_of size bound t
  unfolding replace_blob_ref
  replace-Books now ctx put input previous s {stored} {t} own below put_size below' there inv sized
        charged h =
      let dropped = drop_previous org_of now ctx input previous s in
      let d = drop-IsDropped now ctx input previous s own below' inv sized in
      let ref = ref_row ctx put.digest input in
      let r = insert_counted (ensure_active_blob dropped.1 put.digest put.size) put.digest ref in
      let charge = charge_for org_of ctx put r.1 dropped.1 in
      let u = counted-usage dropped.1 ctx put input own below put_size in
      let r_inv : Inv r.2 = counted-Inv dropped.1 put.size ref d.inv (rw d.objects there) in
      let books : Charged org_of size bound (
          if charge == dropped.0
          then r.2
          else adjust_storage_used r.2 ctx.org_id (net_delta charge dropped.0)) =
        net-Charged s r.2 ctx.org_id charge dropped.0
          (usage org_of size bound dropped.1.blob_refs ctx.org_id) charged (u.2 ∙ d.quotas) d.here
          u.0 (λ o other. u.1 o other ∙ d.elsewhere o other) in
      let all' : Inv (
          if charge == dropped.0
          then r.2
          else adjust_storage_used r.2 ctx.org_id (net_delta charge dropped.0)) =
        elim (Bool-cases (charge == dropped.0)) [
          | inl even ↦ rw even r_inv
          | inr uneven ↦ rw uneven (adjust-Inv r.2 ctx.org_id (net_delta charge dropped.0) r_inv)
        ] in
      let (passed, e) = >>-eq-ok _ _ h in let (a, b) = ok_pair e in rw (← b) (all', books)
