-- ===== src/Runtime/InFlight/Shared.antt =====
-- One load for each key in `InFlightDeduper` (packages/core/src/runtime.ts).
use hootifactory.Prelude.{
  ℕ, ◌≡◌, refl, sym, true, false, List, [], ◌∷◌, ◌++◌, none, some, arith, ◌==◌, nat_eq, Comparable,
  Bool-cases, Option-cases, inl, inr,
}
use hootifactory.Runtime.Lru.{Entries, find_entry, delete_entry}
use hootifactory.Runtime.Lru.Bounds.{
  has_key, distinct_keys, delete-distinct_keys, append-distinct_keys,
}
use hootifactory.Runtime.InFlight.{InFlight, none_in_flight, run_load, remove_load, settle}

module _ {K : Type 0} ⦃e : Comparable K⦄ where
  -- Calls of `run`, and ends of loads that are pending.
  pub data DeduperStep (s : InFlight K) : InFlight K → Type 0 where
    called : (key : K) → DeduperStep s (run_load key s).1
    settled :
        (key : K) (promise : ℕ) (before after : List (K × ℕ))
        → s.pending ≡ before ++ ((key, promise) ∷ after)
        → DeduperStep s (settle key promise s)

  pub data Deduping : InFlight K → Type 0 where
    begin : Deduping none_in_flight
    then_step : {s t : InFlight K} → Deduping s → DeduperStep s t → Deduping t

  missing-has_key : (key : K) (es : Entries K ℕ) → find_entry key es ≡ none → has_key key es ≡ false
  unfolding find_entry
  missing-has_key key [] h = refl
  missing-has_key key ((k, v) ∷ es) h = elim (Bool-cases (k == key)) [
    | inl same ↦ absurd (let f : some v ≡ none = rw same at h in cc)
    | inr other ↦ rw other (missing-has_key key es (rw other at h))
  ]

  absent-delete : (key : K) (es : Entries K ℕ) → has_key key es ≡ false → delete_entry key es ≡ es
  unfolding delete_entry
  absent-delete key [] h = refl
  absent-delete key ((k, v) ∷ es) h = elim (Bool-cases (k == key)) [
    | inl same ↦ absurd (let f : true ≡ false = rw same at h in cc)
    | inr other ↦ rw (other, absent-delete key es (rw other at h)) refl
  ]

  has_key-middle :
      (key : K) (p : ℕ) (before after : Entries K ℕ)
      → has_key key (before ++ ((key, p) ∷ after)) ≡ true
  has_key-middle key p [] after = rw ((e.equals_iff key key).1 refl) refl
  has_key-middle key p ((k, v) ∷ before) after =
      rw (has_key-middle key p before after) (ground arith)

  -- A pending load of distinct keys is found under its key.
  found_pending :
      (key : K) (p : ℕ) (before after : Entries K ℕ)
      → distinct_keys (before ++ ((key, p) ∷ after)) ≡ true
      → find_entry key (before ++ ((key, p) ∷ after)) ≡ some p
  unfolding find_entry
  found_pending key p [] after h = rw ((e.equals_iff key key).1 refl) refl
  found_pending key p ((k, v) ∷ before) after h = elim (Bool-cases (k == key)) [
    | inl same ↦
        let k_is : k ≡ key = (e.equals_iff k key).0 same in
        let f : false ≡ true = rw (k_is, has_key-middle key p before after) at h in
        absurd (let g : false ≡ true = f in cc)
    | inr other ↦ rw other (found_pending key p before after (ground arith))
  ]

  remove_pending :
      (key : K) (p : ℕ) (before after : Entries K ℕ)
      → distinct_keys (before ++ ((key, p) ∷ after)) ≡ true
      → remove_load key p (before ++ ((key, p) ∷ after))
        ≡ delete_entry key (before ++ ((key, p) ∷ after))
  unfolding delete_entry
  remove_pending key p [] after h =
      rw ((e.equals_iff key key).1 refl, (nat_eq.equals_iff p p).1 refl)
        (sym (absent-delete key after (ground arith)))
  remove_pending key p ((k, v) ∷ before) after h = elim (Bool-cases (k == key)) [
    | inl same ↦
        let k_is : k ≡ key = (e.equals_iff k key).0 same in
        absurd (let f : false ≡ true = rw (k_is, has_key-middle key p before after) at h in cc)
    | inr other ↦ rw (other, remove_pending key p before after (ground arith)) refl
  ]

  abbrev IsShared : InFlight K → Type 0
  IsShared s = (s.in_flight ≡ s.pending) × (distinct_keys s.pending ≡ true)

  run-IsShared : (key : K) (s : InFlight K) → IsShared s → IsShared (run_load key s).1
  unfolding run_load
  run-IsShared key s (same, apart) = elim (Option-cases (find_entry key s.in_flight)) [
    | inr (p, found) ↦ rw (found, run_load) (same, apart)
    | inl missing ↦
        rw (missing, run_load)
          (
            rw same refl,
            append-distinct_keys key s.next_promise s.pending apart
                (rw same at (missing-has_key key s.in_flight missing)),
          )
  ]

  settle-IsShared :
      (key : K) (p : ℕ) (before after : List (K × ℕ)) (s : InFlight K)
      → s.pending ≡ before ++ ((key, p) ∷ after)
      → IsShared s
      → IsShared (settle key p s)
  unfolding settle
  settle-IsShared key p before after s shape (same, apart) =
      let apart' : distinct_keys (before ++ ((key, p) ∷ after)) ≡ true = rw shape at apart in
      let removed = remove_pending key p before after apart' in
      (
        rw
            (
              settle,
              same,
              shape,
              found_pending key p before after apart',
              (nat_eq.equals_iff p p).1 refl,
              same,
              shape,
            )
            (sym removed),
        rw (shape, removed) (delete-distinct_keys key (before ++ ((key, p) ∷ after)) apart'),
      )

-- However calls and ends of loads interleave, the map holds exactly the loads that are pending, and
-- no key has two of them.
pub one_load_per_key :
    {K : Type 0} ⦃e : Comparable K⦄ {s : InFlight K}
    → Deduping s
    → (s.in_flight ≡ s.pending) × (distinct_keys s.pending ≡ true)
one_load_per_key begin = (refl, refl)
one_load_per_key (then_step {s} r (called key)) = run-IsShared key s (one_load_per_key r)
one_load_per_key (then_step {s} r (settled key p before after shape)) =
    settle-IsShared key p before after s shape (one_load_per_key r)
