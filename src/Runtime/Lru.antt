-- ===== src/Runtime/Lru.antt =====
-- `BoundedLruCache` of packages/core/src/runtime.ts. The map's entries in the order in which they
-- were set, the oldest first.
pub mod Bounds
pub mod Recency
pub mod Lookup
use hootifactory.Prelude.{
  ℕ, Bool, true, false, not, ◌&&◌, List, [], ◌∷◌, ◌++◌, Option, none, some, ◌==◌, Comparable,
  if◌then◌else◌, leb, length, keep,
}

abbrev pub Entries : Type 0 → Type 0 → Type 0
Entries K V = List (K × V)

module _ {K V : Type 0} ⦃e : Comparable K⦄ where
  -- `entries.get(key)`
  unfoldable pub find_entry : K → Entries K V → Option V
  find_entry key [] = none
  find_entry key ((k, v) ∷ es) = if k == key then some v else find_entry key es

  -- `entries.delete(key)`
  unfoldable pub delete_entry : K → Entries K V → Entries K V
  delete_entry key [] = []
  delete_entry key ((k, v) ∷ es) =
      let rest = delete_entry key es in if k == key then rest else (k, v) ∷ rest

  -- `get`: a hit moves its entry to the end.
  unfoldable pub cache_get : K → Entries K V → Option V × Entries K V
  cache_get key es = elim (find_entry key es) [
    | none ↦ (none, es)
    | some v ↦ (some v, delete_entry key es ++ ((key, v) ∷ []))
  ]

  -- The loop of `set`: the oldest entries go while there are `max_entries` of them.
  unfoldable pub evict : ℕ → Entries K V → Entries K V
  evict max_entries [] = []
  evict max_entries (x ∷ es) =
      let rest = evict max_entries es in if leb max_entries (length (x ∷ es)) then rest else x ∷ es

  unfoldable pub cache_set : ℕ → K → V → Entries K V → Entries K V
  cache_set max_entries key value es =
      evict max_entries (delete_entry key es) ++ ((key, value) ∷ [])

  -- `deleteWhere`: the entries that are left.
  unfoldable pub delete_where : (K → V → Bool) → Entries K V → Entries K V
  delete_where p es = keep (λ x. not (p x.0 x.1)) es
