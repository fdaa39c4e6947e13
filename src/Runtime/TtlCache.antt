-- ===== src/Runtime/TtlCache.antt =====
-- `createTtlPromiseCache` of packages/core/src/runtime.ts. A promise stands as a number, and
-- `next_promise` is the next one that `fetchValue` makes. Beside the entries stand the promises
-- that were rejected and when each was made, which the code does not keep. The order of the entries
-- is never read, so a set entry stands last.
pub mod Kept
pub mod Fresh
use hootifactory.Prelude.{
  ℕ, ◌+◌, Bool, true, false, List, [], ◌∷◌, ◌++◌, Option, none, some, ◌==◌, nat_eq, Comparable,
  if◌then◌else◌, ltb,
}
use hootifactory.Content.State.{update}
use hootifactory.Runtime.Lru.{Entries, find_entry, delete_entry}

pub record CacheEntry : Type 0 where
  pub expires_at : ℕ
  pub promise : ℕ

pub record TtlCache (K : Type 0) : Type 0 where
  pub entries : Entries K CacheEntry
  pub next_promise : ℕ
  pub rejected : List ℕ
  pub fetched_at : ℕ → ℕ

module _ {K : Type 0} ⦃e : Comparable K⦄ where
  -- A new promise, and the entry that holds it.
  unfoldable pub fetch_entry : ℕ → K → ℕ → TtlCache K → ℕ × TtlCache K
  fetch_entry ttl_ms key now s = (
    s.next_promise,
    record s {
      entries =
          delete_entry key s.entries
          ++ ((key, record { expires_at = now + ttl_ms; promise = s.next_promise }) ∷ []);
      next_promise = s.next_promise + 1;
      fetched_at = update s.fetched_at s.next_promise now;
    },
  )

  -- `get`
  unfoldable pub ttl_get : ℕ → K → ℕ → TtlCache K → ℕ × TtlCache K
  ttl_get ttl_ms key now s = elim (find_entry key s.entries) [
    | none ↦ fetch_entry ttl_ms key now s
    | some cached ↦
        let fetched = fetch_entry ttl_ms key now s in
        if ltb now cached.expires_at then (cached.promise, s) else fetched
  ]

  -- What `catch` does for the promise that was made for a key.
  unfoldable pub promise_rejects : K → ℕ → TtlCache K → TtlCache K
  promise_rejects key promise s =
      let kept = record s { rejected = promise ∷ s.rejected } in
      elim (find_entry key s.entries) [
        | none ↦ kept
        | some current ↦
            if current.promise == promise
            then record kept { entries = delete_entry key s.entries }
            else kept
      ]

  -- `invalidate`, of one key or of all.
  unfoldable pub invalidate : Option K → TtlCache K → TtlCache K
  invalidate none s = record s { entries = [] }
  invalidate (some key) s = record s { entries = delete_entry key s.entries }
