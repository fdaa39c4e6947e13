-- ===== src/Runtime/MapBounded/Complete.antt =====
-- What `mapWithBoundedConcurrency` (packages/core/src/runtime.ts) runs and returns.
use hootifactory.Prelude.{
  ℕ, zero, suc, ◌+◌, ◌≤◌, ◌<◌, ◌≡◌, refl, ◌∙◌, ◌⊎◌, inl, inr, Bool, true, false, not, ◌&&◌, List,
  [], ◌∷◌, none, some, arith, ◌==◌, nat_eq, nat_beq_iff, ltb, min, length, contains, Bool-cases,
}
use hootifactory.Content.State.{update, update_same, update_other}
use hootifactory.Runtime.Limiter.{remove_one}
use hootifactory.Runtime.Limiter.Bounded.{length-remove_one}
use hootifactory.Runtime.MapBounded.{
  MapState, take_next, start_loops, start_map, finish_item, fail_item,
}

abbrev pub distinct_indices : List ℕ → Bool
distinct_indices [] = true
distinct_indices (i ∷ is') = not (contains is' i) && distinct_indices is'

contains-remove_one :
    (i j : ℕ) (is' : List ℕ) → (j == i) ≡ false → contains (remove_one i is') j ≡ contains is' j
contains-remove_one i j [] ne = refl
contains-remove_one i j (k ∷ ks) ne = elim (Bool-cases (k == i)) [
  | inl same ↦ rw same (ground arith)
  | inr other ↦ rw other (ground (arith, contains-remove_one i j ks ne))
]

removed-contains :
    (i : ℕ) (is' : List ℕ) → distinct_indices is' ≡ true → contains (remove_one i is') i ≡ false
removed-contains i [] d = refl
removed-contains i (k ∷ ks) d = elim (Bool-cases (k == i)) [
  | inl same ↦ rw same (ground arith)
  | inr other ↦ rw other (ground (arith, removed-contains i ks (ground arith)))
]

remove_one-distinct_indices :
    (i : ℕ) (is' : List ℕ)
    → distinct_indices is' ≡ true
    → distinct_indices (remove_one i is') ≡ true
remove_one-distinct_indices i [] d = refl
remove_one-distinct_indices i (k ∷ ks) d = elim (Bool-cases (k == i)) [
  | inl same ↦ rw same (ground arith)
  | inr other ↦
      rw (other, contains-remove_one i k ks other)
        (ground (arith, remove_one-distinct_indices i ks (ground arith)))
]

-- What is done with `items` items by `loops` loops, when item `i` gives `value i`.
module _ {R : Type 0} (value : ℕ → R) (items loops : ℕ) where
  -- Every index taken is running or has its result; the loops that have not ended all run an index
  -- while there are more.
  pub record IsMapping (s : MapState R) (waiting : ℕ) : Type 0 where
    pub bounded : length s.running + s.failed + waiting ≤ loops
    pub busy : s.next < items → length s.running + s.failed + waiting ≡ loops
    pub below : s.next ≤ items
    pub taken : (i : ℕ) → contains s.running i ≡ true → i < s.next
    pub distinct : distinct_indices s.running ≡ true
    pub done :
        s.failed ≡ 0
        → (i : ℕ) → i < s.next
        → (contains s.running i ≡ true) ⊎ (s.results i ≡ some (value i))

  take_next-IsMapping :
      (s : MapState R) (waiting : ℕ)
      → IsMapping s (suc waiting)
      → IsMapping (take_next items s) waiting
  unfolding take_next
  take_next-IsMapping s waiting v = elim (Bool-cases (ltb s.next items)) [
    | inr over ↦ rw over (record {
      bounded = omega (arith, v.bounded);
      busy = λ h. absurd (ground arith);
      below = v.below;
      taken = v.taken;
      distinct = v.distinct;
      done = v.done;
    })
    | inl more ↦
        let fresh : contains s.running s.next ≡ false =
          elim (Bool-cases (contains s.running s.next)) [
            | inr n ↦ n
            | inl y ↦ absurd (let h : s.next < s.next = v.taken s.next y in omega arith)
          ] in
        let full : length s.running + s.failed + suc waiting ≡ loops = v.busy (ground arith) in
        rw more (record {
          bounded = omega (arith, full);
          busy = λ h. omega (arith, full);
          below = ground arith;
          taken = λ i h. elim (Bool-cases (s.next == i)) [
            | inl same ↦ ground arith
            | inr other ↦ omega (arith, v.taken i (rw other at h))
          ];
          distinct = rw fresh v.distinct;
          done = λ none' i h. elim (Bool-cases (s.next == i)) [
            | inl same ↦ inl (rw same refl)
            | inr other ↦ elim (v.done none' i (ground arith)) [
              | inl runs ↦ inl (rw runs (ground arith))
              | inr has ↦ inr has
            ]
          ];
        })
  ]

  start_loops-IsMapping :
      (n : ℕ) (s : MapState R) → IsMapping s n → IsMapping (start_loops items n s) 0
  unfolding start_loops
  start_loops-IsMapping zero s v = v
  start_loops-IsMapping (suc n) s v =
      start_loops-IsMapping n (take_next items s) (take_next-IsMapping s n v)

  -- An index leaves the running ones, with its result written or lost.
  finish-IsMapping :
      (index : ℕ) (s : MapState R)
      → contains s.running index ≡ true
      → IsMapping s 0
      → IsMapping (finish_item items index (value index) s) 0
  unfolding finish_item
  finish-IsMapping index s runs v =
      take_next-IsMapping
        (record s {
          running = remove_one index s.running;
          results = update s.results index (some (value index));
        })
        0
        (record {
          bounded = omega (arith, length-remove_one index s.running runs, v.bounded);
          busy = λ h. omega (arith, length-remove_one index s.running runs, v.busy h);
          below = v.below;
          taken = λ i h. elim (Bool-cases (i == index)) [
            | inl same ↦ omega (arith, v.taken index runs, (nat_beq_iff i index).0 same)
            | inr other ↦ v.taken i (rw (contains-remove_one index i s.running other) at h)
          ];
          distinct = remove_one-distinct_indices index s.running v.distinct;
          done = λ none' i h. elim (Bool-cases (i == index)) [
            | inl same ↦
                let e : i ≡ index = (nat_beq_iff i index).0 same in
                inr (rw e (update_same s.results index (some (value index))))
            | inr other ↦ elim (v.done none' i h) [
              | inl still ↦ inl (rw (contains-remove_one index i s.running other) still)
              | inr has ↦
                  let apart : (index == i) ≡ false = ground arith in
                  inr (update_other s.results index (some (value index)) i apart ∙ has)
            ]
          ];
        })

  fail-IsMapping :
      (index : ℕ) (s : MapState R)
      → contains s.running index ≡ true
      → IsMapping s 0
      → IsMapping (fail_item index s) 0
  unfolding fail_item
  fail-IsMapping index s runs v = record {
    bounded = omega (arith, length-remove_one index s.running runs, v.bounded);
    busy = λ h. omega (arith, length-remove_one index s.running runs, v.busy h);
    below = v.below;
    taken = λ i h. elim (Bool-cases (i == index)) [
      | inl same ↦ omega (arith, v.taken index runs, (nat_beq_iff i index).0 same)
      | inr other ↦ v.taken i (rw (contains-remove_one index i s.running other) at h)
    ];
    distinct = remove_one-distinct_indices index s.running v.distinct;
    done = λ none' i h. absurd (omega (arith, none'));
  }

module _ {R : Type 0} (value : ℕ → R) (items concurrency : ℕ) where
  -- Ends of items, in any order: with the item's value, or by a rejection.
  pub data Mapping : MapState R → Type 0 where
    started : Mapping (start_map items concurrency)
    finished :
        {s : MapState R} (index : ℕ)
        → Mapping s
        → contains s.running index ≡ true
        → Mapping (finish_item items index (value index) s)
    rejected :
        {s : MapState R} (index : ℕ)
        → Mapping s
        → contains s.running index ≡ true
        → Mapping (fail_item index s)

  start-IsMapping :
      IsMapping value items (min concurrency items) (start_map {R = R} items concurrency) 0
  unfolding start_map
  start-IsMapping =
      start_loops-IsMapping value items (min concurrency items) (min concurrency items)
        (record { next = 0; running = []; results = λ index. none; failed = 0 })
        (record {
          bounded = omega arith;
          busy = λ h. omega arith;
          below = omega arith;
          taken = λ i h. absurd (let f : false ≡ true = h in cc f);
          distinct = refl;
          done = λ none' i h. absurd (omega (arith, h));
        })

  Mapping-IsMapping :
      {s : MapState R} → Mapping s → IsMapping value items (min concurrency items) s 0
  Mapping-IsMapping started = start-IsMapping
  Mapping-IsMapping (finished {s} index r runs) =
      finish-IsMapping value items (min concurrency items) index s runs (Mapping-IsMapping r)
  Mapping-IsMapping (rejected {s} index r runs) =
      fail-IsMapping value items (min concurrency items) index s runs (Mapping-IsMapping r)

-- However the items end, at most `concurrency` of them run at once, and none twice at once. When
-- none runs and none was rejected, every item has its own result at its own index.
pub map_complete :
    {R : Type 0} (value : ℕ → R) (items concurrency : ℕ) {s : MapState R}
    → 1 ≤ concurrency
    → Mapping value items concurrency s
    → (length s.running ≤ concurrency)
      × (distinct_indices s.running ≡ true)
      × (s.running ≡ [] → s.failed ≡ 0 → (i : ℕ) → i < items → s.results i ≡ some (value i))
map_complete value items concurrency {s} pos r =
    let v = Mapping-IsMapping value items concurrency r in
    (
      omega (arith, v.bounded),
      v.distinct,
      λ idle none' i below.
          let all_taken : i < s.next = elim (Bool-cases (ltb s.next items)) [
            | inr over ↦ ground arith
            | inl more ↦
                let full : length s.running + s.failed + 0 ≡ min concurrency items =
                  v.busy (ground arith) in
                let zero' : 0 ≡ min concurrency items = rw (idle, none') at full in
                absurd (omega (arith, zero', pos, below))
          ] in
          elim (v.done none' i all_taken) [
            | inl runs ↦ absurd (let f : false ≡ true = rw idle at runs in cc f)
            | inr has ↦ has
          ],
    )
