-- ===== src/Runtime/Lru/Bounds.antt =====
-- The size and the keys of `BoundedLruCache` (packages/core/src/runtime.ts).
use hootifactory.Prelude.{
  ℕ, ◌+◌, ◌≤◌, ◌≡◌, refl, sym, ◌∙◌, Bool, true, false, not, ◌&&◌, ◌||◌, [], ◌∷◌, ◌++◌, none, some,
  arith, ◌==◌, Comparable, leb, length, length-append, keep, Bool-cases, Option-cases, inl, inr,
}
use hootifactory.Runtime.Lru.{
  Entries, find_entry, delete_entry, cache_get, evict, cache_set, delete_where,
}

module _ {K : Type 0} ⦃e : Comparable K⦄ where
  apart : (i j k : K) → (i == k) ≡ false → (i == j) ≡ true → (k == j) ≡ false
  apart i j k ne eq = elim (Bool-cases (k == j)) [
    | inr other ↦ other
    | inl same ↦
        let ij : i ≡ j = (e.equals_iff i j).0 eq in
        let kj : k ≡ j = (e.equals_iff k j).0 same in
        let ik : (i == k) ≡ true = (e.equals_iff i k).1 (ij ∙ sym kj) in
        absurd (let f : false ≡ true = sym ne ∙ ik in cc)
  ]

module _ {K V : Type 0} ⦃e : Comparable K⦄ where
  -- `entries.has(key)`
  abbrev pub has_key : K → Entries K V → Bool
  has_key key [] = false
  has_key key ((k, v) ∷ es) = k == key || has_key key es

  abbrev pub distinct_keys : Entries K V → Bool
  distinct_keys [] = true
  distinct_keys ((k, v) ∷ es) = not (has_key k es) && distinct_keys es

  -- The operations, with any arguments.
  pub data CacheStep (max_entries : ℕ) (es : Entries K V) : Entries K V → Type 0 where
    got : (key : K) → CacheStep max_entries es (cache_get key es).1
    set : (key : K) (value : V) → CacheStep max_entries es (cache_set max_entries key value es)
    deleted : (key : K) → CacheStep max_entries es (delete_entry key es)
    filtered : (p : K → V → Bool) → CacheStep max_entries es (delete_where p es)

  -- What the operations make of an empty cache.
  pub data Cached (max_entries : ℕ) : Entries K V → Type 0 where
    fresh : Cached max_entries []
    then_step :
        {es fs : Entries K V}
        → Cached max_entries es
        → CacheStep max_entries es fs
        → Cached max_entries fs

  has_key-delete :
      (j k : K) (es : Entries K V) → has_key j (delete_entry k es) ≡ (has_key j es && not (k == j))
  unfolding delete_entry
  has_key-delete j k [] = refl
  has_key-delete j k ((i, v) ∷ es) = elim (Bool-cases (i == k)) [
    | inl same ↦ rw (same, has_key-delete j k es, (e.equals_iff i k).0 same) (ground arith)
    | inr other ↦ elim (Bool-cases (i == j)) [
      | inl here ↦ rw (other, here, apart i j k other here) refl
      | inr there ↦ rw (other, there, has_key-delete j k es) refl
    ]
  ]

  has_key-append :
      (j : K) (es fs : Entries K V) → has_key j (es ++ fs) ≡ (has_key j es || has_key j fs)
  has_key-append j [] fs = refl
  has_key-append j ((i, v) ∷ es) fs = rw (has_key-append j es fs) (ground arith)

  pub delete-distinct_keys :
      (k : K) (es : Entries K V)
      → distinct_keys es ≡ true
      → distinct_keys (delete_entry k es) ≡ true
  unfolding delete_entry
  delete-distinct_keys k [] h = refl
  delete-distinct_keys k ((i, v) ∷ es) h = elim (Bool-cases (i == k)) [
    | inl same ↦ rw same (delete-distinct_keys k es (ground arith))
    | inr other ↦ rw (other, has_key-delete i k es) (ground (arith, delete-distinct_keys k es))
  ]

  pub append-distinct_keys :
      (k : K) (v : V) (es : Entries K V)
      → distinct_keys es ≡ true
      → has_key k es ≡ false
      → distinct_keys (es ++ ((k, v) ∷ [])) ≡ true
  append-distinct_keys k v [] h free = refl
  append-distinct_keys k v ((i, w) ∷ es) h free = elim (Bool-cases (k == i)) [
    | inl same ↦
        let back : (i == k) ≡ true = (e.equals_iff i k).1 (sym ((e.equals_iff k i).0 same)) in
        absurd (let f : true ≡ false = rw back at free in cc)
    | inr other ↦
        rw (has_key-append i es ((k, v) ∷ []), other) (ground (arith, append-distinct_keys k v es))
  ]

  deleted_has_no_key : (k : K) (es : Entries K V) → has_key k (delete_entry k es) ≡ false
  deleted_has_no_key k es = rw (has_key-delete k k es, (e.equals_iff k k).1 refl) (ground arith)

  evict-distinct_keys :
      (m : ℕ) (es : Entries K V) → distinct_keys es ≡ true → distinct_keys (evict m es) ≡ true
  unfolding evict
  evict-distinct_keys m [] h = refl
  evict-distinct_keys m ((i, v) ∷ es) h = elim (Bool-cases (leb m (length ((i, v) ∷ es)))) [
    | inl full ↦ rw full (evict-distinct_keys m es (ground arith))
    | inr room ↦ rw room h
  ]

  evict-has_key :
      (m : ℕ) (k : K) (es : Entries K V) → has_key k es ≡ false → has_key k (evict m es) ≡ false
  unfolding evict
  evict-has_key m k [] h = refl
  evict-has_key m k ((i, v) ∷ es) h = elim (Bool-cases (leb m (length ((i, v) ∷ es)))) [
    | inl full ↦ rw full (evict-has_key m k es (ground arith))
    | inr room ↦ rw room h
  ]

  length-evict : (m : ℕ) (es : Entries K V) → 1 ≤ m → length (evict m es) + 1 ≤ m
  unfolding evict
  length-evict m [] h = omega arith
  length-evict m (x ∷ es) h = elim (Bool-cases (leb m (length (x ∷ es)))) [
    | inl full ↦ rw full (length-evict m es h)
    | inr room ↦ rw room (ground arith)
  ]

  length-delete : (k : K) (es : Entries K V) → length (delete_entry k es) ≤ length es
  unfolding delete_entry
  length-delete k [] = omega arith
  length-delete k ((i, v) ∷ es) = elim (Bool-cases (i == k)) [
    | inl same ↦ rw same (omega (arith, length-delete k es))
    | inr other ↦ rw other (omega (arith, length-delete k es))
  ]

  length-delete_found :
      (k : K) (es : Entries K V) (v : V)
      → find_entry k es ≡ some v
      → length (delete_entry k es) + 1 ≤ length es
  unfolding delete_entry find_entry
  length-delete_found k [] v h = absurd (let f : none ≡ some v = h in cc)
  length-delete_found k ((i, w) ∷ es) v h = elim (Bool-cases (i == k)) [
    | inl same ↦ rw same (omega (arith, length-delete k es))
    | inr other ↦ rw other (omega (arith, length-delete_found k es v (rw other at h)))
  ]

  length-keep : (p : K × V → Bool) (es : Entries K V) → length (keep p es) ≤ length es
  length-keep p [] = omega arith
  length-keep p (x ∷ es) = elim (Bool-cases (p x)) [
    | inl y ↦ rw y (omega (arith, length-keep p es))
    | inr n ↦ rw n (omega (arith, length-keep p es))
  ]

  keep-has_key :
      (p : K × V → Bool) (k : K) (es : Entries K V)
      → has_key k es ≡ false
      → has_key k (keep p es) ≡ false
  keep-has_key p k [] h = refl
  keep-has_key p k ((i, v) ∷ es) h = elim (Bool-cases (p (i, v))) [
    | inl y ↦ rw y (ground (arith, keep-has_key p k es))
    | inr n ↦ rw n (keep-has_key p k es (ground arith))
  ]

  keep-distinct_keys :
      (p : K × V → Bool) (es : Entries K V)
      → distinct_keys es ≡ true
      → distinct_keys (keep p es) ≡ true
  keep-distinct_keys p [] h = refl
  keep-distinct_keys p ((i, v) ∷ es) h = elim (Bool-cases (p (i, v))) [
    | inl y ↦ rw y (ground (arith, keep-has_key p i es, keep-distinct_keys p es))
    | inr n ↦ rw n (keep-distinct_keys p es (ground arith))
  ]

  abbrev IsCache : ℕ → Entries K V → Type 0
  IsCache m es = (length es ≤ m) × (distinct_keys es ≡ true)

  get-IsCache : (m : ℕ) (k : K) (es : Entries K V) → IsCache m es → IsCache m (cache_get k es).1
  unfolding cache_get
  get-IsCache m k es (fits, apart') = elim (Option-cases (find_entry k es)) [
    | inl missing ↦ rw (missing, cache_get) (fits, apart')
    | inr (v, found) ↦
        rw (found, cache_get)
          (
            omega (
              arith,
              length-append (delete_entry k es) ((k, v) ∷ []),
              length-delete_found k es v found,
              fits,
            ),
            append-distinct_keys k v (delete_entry k es) (delete-distinct_keys k es apart')
                (deleted_has_no_key k es),
          )
  ]

  set-IsCache :
      (m : ℕ) (k : K) (v : V) (es : Entries K V)
      → 1 ≤ m
      → IsCache m es
      → IsCache m (cache_set m k v es)
  unfolding cache_set
  set-IsCache m k v es pos (fits, apart') = (
    omega (
      arith,
      length-append (evict m (delete_entry k es)) ((k, v) ∷ []),
      length-evict m (delete_entry k es) pos,
    ),
    append-distinct_keys k v (evict m (delete_entry k es))
        (evict-distinct_keys m (delete_entry k es) (delete-distinct_keys k es apart'))
        (evict-has_key m k (delete_entry k es) (deleted_has_no_key k es)),
  )

  step-IsCache :
      (m : ℕ) {es fs : Entries K V} → 1 ≤ m → CacheStep m es fs → IsCache m es → IsCache m fs
  unfolding delete_where
  step-IsCache m {es} pos (got k) c = get-IsCache m k es c
  step-IsCache m {es} pos (set k v) c = set-IsCache m k v es pos c
  step-IsCache m {es} pos (deleted k) (fits, apart') =
      (omega (arith, length-delete k es, fits), delete-distinct_keys k es apart')
  step-IsCache m {es} pos (filtered p) (fits, apart') = (
    omega (arith, length-keep (λ x. not (p x.0 x.1)) es, fits),
    keep-distinct_keys (λ x. not (p x.0 x.1)) es apart',
  )

-- Whatever is done to a cache with room for one entry at least, it holds no more entries than it
-- has room for, and each key at most once.
pub cache_stays_bounded :
    {K V : Type 0} ⦃e : Comparable K⦄ (max_entries : ℕ) {es : Entries K V}
    → 1 ≤ max_entries
    → Cached max_entries es
    → (length es ≤ max_entries) × (distinct_keys es ≡ true)
cache_stays_bounded m pos fresh = (omega arith, refl)
cache_stays_bounded m pos (then_step c s) = step-IsCache m pos s (cache_stays_bounded m pos c)
