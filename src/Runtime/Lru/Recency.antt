-- ===== src/Runtime/Lru/Recency.antt =====
-- Which entries `BoundedLruCache` keeps (packages/core/src/runtime.ts).
use hootifactory.Prelude.{
  ℕ, suc, ◌+◌, ◌≤◌, ◌<◌, ◌≡◌, refl, sym, ◌∙◌, Bool, true, false, not, ◌&&◌, [], ◌∷◌, ◌++◌, some,
  arith, ◌==◌, Comparable, leb, length, length-append, Bool-cases, inl, inr,
}
use mathlib.Core.List.{append_assoc}
use hootifactory.Runtime.Lru.{Entries, find_entry, delete_entry, evict, cache_set}

module _ {K : Type 0} ⦃e : Comparable K⦄ where
  flip : (j key : K) → (j == key) ≡ false → (key == j) ≡ false
  flip j key other = elim (Bool-cases (key == j)) [
    | inr n ↦ n
    | inl y ↦
        let same : (j == key) ≡ true = (e.equals_iff j key).1 (sym ((e.equals_iff key j).0 y)) in
        absurd (let f : true ≡ false = sym same ∙ other in cc)
  ]

module _ {K V : Type 0} ⦃e : Comparable K⦄ where
  -- `set` for each of the pairs.
  abbrev pub set_each : ℕ → Entries K V → Entries K V → Entries K V
  set_each m [] es = es
  set_each m ((k, v) ∷ kvs) es = set_each m kvs (cache_set m k v es)

  abbrev pub none_is : K → Entries K V → Bool
  none_is key [] = true
  none_is key ((k, v) ∷ es) = not (k == key) && none_is key es

  -- The entry stands with fewer than `n` others behind it, and none of its key.
  abbrev Recent : ℕ → K → V → Entries K V → Type 0
  Recent n key v es =
      (old new : Entries K V) × (es ≡ old ++ ((key, v) ∷ new))
      × (none_is key old ≡ true)
      × (none_is key new ≡ true)
      × (length new < n)

  find-append :
      (key : K) (v : V) (old new : Entries K V)
      → none_is key old ≡ true
      → find_entry key (old ++ ((key, v) ∷ new)) ≡ some v
  unfolding find_entry
  find-append key v [] new h = rw ((e.equals_iff key key).1 refl) refl
  find-append key v ((k, w) ∷ old) new h = elim (Bool-cases (k == key)) [
    | inl same ↦ absurd (let f : false ≡ true = rw same at h in cc)
    | inr other ↦ rw other (find-append key v old new (ground arith))
  ]

  delete-append :
      (j : K) (es fs : Entries K V)
      → delete_entry j (es ++ fs) ≡ delete_entry j es ++ delete_entry j fs
  unfolding delete_entry
  delete-append j [] fs = refl
  delete-append j ((k, v) ∷ es) fs = elim (Bool-cases (k == j)) [
    | inl same ↦ rw same (delete-append j es fs)
    | inr other ↦ rw (other, delete-append j es fs) refl
  ]

  none_is-delete :
      (key j : K) (es : Entries K V)
      → none_is key es ≡ true
      → none_is key (delete_entry j es) ≡ true
  unfolding delete_entry
  none_is-delete key j [] h = refl
  none_is-delete key j ((k, v) ∷ es) h = elim (Bool-cases (k == j)) [
    | inl same ↦ rw same (none_is-delete key j es (ground arith))
    | inr other ↦ rw other (ground (arith, none_is-delete key j es))
  ]

  length-delete : (k : K) (es : Entries K V) → length (delete_entry k es) ≤ length es
  unfolding delete_entry
  length-delete k [] = omega arith
  length-delete k ((i, v) ∷ es) = elim (Bool-cases (i == k)) [
    | inl same ↦ rw same (omega (arith, length-delete k es))
    | inr other ↦ rw other (omega (arith, length-delete k es))
  ]

  none_is-append :
      (key : K) (es fs : Entries K V)
      → none_is key es ≡ true
      → none_is key fs ≡ true
      → none_is key (es ++ fs) ≡ true
  none_is-append key [] fs h g = g
  none_is-append key ((k, v) ∷ es) fs h g = ground (arith, none_is-append key es fs)

  -- The oldest go first: what stands behind fewer than `m` entries stays.
  evict-append :
      (m : ℕ) (key : K) (v : V) (old new : Entries K V)
      → none_is key old ≡ true
      → length new + 1 < m
      → (kept : Entries K V) × (evict m (old ++ ((key, v) ∷ new)) ≡ kept ++ ((key, v) ∷ new))
        × (none_is key kept ≡ true)
  unfolding evict
  evict-append m key v [] new h few =
      let room : leb m (length ((key, v) ∷ new)) ≡ false = ground arith in ([], rw room refl, refl)
  evict-append m key v ((k, w) ∷ old) new h few =
      elim (Bool-cases (leb m (length ((k, w) ∷ (old ++ ((key, v) ∷ new)))))) [
        | inl full ↦ rw full (evict-append m key v old new (ground arith) few)
        | inr room ↦ ((k, w) ∷ old, rw room refl, h)
      ]

  delete-cons :
      (j k : K) (v : V) (es : Entries K V)
      → (k == j) ≡ false
      → delete_entry j ((k, v) ∷ es) ≡ (k, v) ∷ delete_entry j es
  unfolding delete_entry
  delete-cons j k v es other = rw other refl

  none_is-evict :
      (m : ℕ) (key : K) (es : Entries K V) → none_is key es ≡ true → none_is key (evict m es) ≡ true
  unfolding evict
  none_is-evict m key [] h = refl
  none_is-evict m key ((i, v) ∷ es) h = elim (Bool-cases (leb m (length ((i, v) ∷ es)))) [
    | inl full ↦ rw full (none_is-evict m key es (ground arith))
    | inr room ↦ rw room h
  ]

  none_is_deleted : (key : K) (es : Entries K V) → none_is key (delete_entry key es) ≡ true
  unfolding delete_entry
  none_is_deleted key [] = refl
  none_is_deleted key ((i, v) ∷ es) = elim (Bool-cases (i == key)) [
    | inl same ↦ rw same (none_is_deleted key es)
    | inr other ↦ rw (other, other) (none_is_deleted key es)
  ]

  -- One `set` of another key.
  set-Recent :
      (m n : ℕ) (key j : K) (v w : V) (es : Entries K V)
      → suc n ≤ m
      → (j == key) ≡ false
      → (key == j) ≡ false
      → Recent n key v es
      → Recent (suc n) key v (cache_set m j w es)
  unfolding cache_set
  set-Recent m n key j v w es room other other' (old, new, shape, before, behind, few) =
      let shape' : delete_entry j es ≡ delete_entry j old ++ ((key, v) ∷ delete_entry j new) =
        rw (shape, delete-append j old ((key, v) ∷ new), delete-cons j key v new other') refl in
      let (kept, evicted, clean) =
        evict-append m key v (delete_entry j old) (delete_entry j new)
          (none_is-delete key j old before) (omega (arith, length-delete j new)) in
      (
        kept,
        delete_entry j new ++ ((j, w) ∷ []),
        rw (shape', evicted) (append_assoc kept ((key, v) ∷ delete_entry j new) ((j, w) ∷ [])),
        clean,
        none_is-append key (delete_entry j new) ((j, w) ∷ []) (none_is-delete key j new behind)
            (rw other refl),
        omega (arith, length-append (delete_entry j new) ((j, w) ∷ []), length-delete j new),
      )

  set_each-Recent :
      (m n : ℕ) (key : K) (v : V) (kvs es : Entries K V)
      → n + length kvs ≤ m
      → none_is key kvs ≡ true
      → Recent n key v es
      → find_entry key (set_each m kvs es) ≡ some v
  set_each-Recent m n key v [] es room others (old, new, shape, before, behind, few) =
      rw shape (find-append key v old new before)
  set_each-Recent m n key v ((j, w) ∷ kvs) es room others recent = elim (Bool-cases (j == key)) [
    | inl same ↦ absurd (let f : false ≡ true = rw same at others in cc)
    | inr other ↦
        set_each-Recent m (suc n) key v kvs (cache_set m j w es) (omega (arith, room))
          (ground arith)
          (set-Recent m n key j v w es (omega (arith, room)) other (flip j key other) recent)
  ]

-- The entry last set outlives fewer than `maxEntries` sets of other keys: it is found behind them
-- with its value, whatever the cache held before.
pub recent_entry_found :
    {K V : Type 0} ⦃e : Comparable K⦄ (max_entries : ℕ) (key : K) (value : V)
    (others es : Entries K V)
    → length others < max_entries
    → none_is key others ≡ true
    → find_entry key (set_each max_entries others (cache_set max_entries key value es)) ≡ some value
unfolding cache_set
recent_entry_found m key v others es room apart =
    set_each-Recent m 1 key v others (cache_set m key v es) (omega (arith, room)) apart (
      evict m (delete_entry key es),
      [],
      refl,
      none_is-evict m key (delete_entry key es) (none_is_deleted key es),
      refl,
      omega arith,
    )
