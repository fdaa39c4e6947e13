-- ===== src/Runtime/TtlCache/Fresh.antt =====
-- Which promises `createTtlPromiseCache` (packages/core/src/runtime.ts) gives out.
use hootifactory.Prelude.{
  ◌⊎◌, ℕ, ◌+◌, ◌≤◌, ◌<◌, ◌≡◌, refl, sym, ◌∙◌, inl, inr, true, false, Option, none, some, arith,
  ◌==◌, nat_eq, nat_beq_iff, Comparable, ltb, contains, Bool-cases, Option-cases,
}
use hootifactory.Runtime.Lru.{find_entry, delete_entry}
use hootifactory.Runtime.Lru.Lookup.{find-delete}
use hootifactory.Runtime.TtlCache.{
  CacheEntry, TtlCache, fetch_entry, ttl_get, promise_rejects, invalidate,
}
use hootifactory.Runtime.TtlCache.Kept.{
  TtlReach, nothing, got, rejects, invalidated, IsTtlCache, get-IsTtlCache, delete-IsTtlCache,
  reject-IsTtlCache,
}

module _ {K : Type 0} ⦃e : Comparable K⦄ (ttl_ms : ℕ) where
  -- The entry of a promise stands under the promise's key.
  own_key :
      (s : TtlCache K) (key_of : ℕ → Option K) (promise : ℕ) (key k : K) (c : CacheEntry)
      → IsTtlCache ttl_ms s key_of
      → key_of promise ≡ some key
      → find_entry k s.entries ≡ some c
      → c.promise ≡ promise
      → k ≡ key
  own_key s key_of promise key k c v mine at same =
      let (below, expires, live, made_for) = v.kept k c at in
      let f : some k ≡ some key = sym (rw same at made_for) ∙ mine in cc f

  rejects-IsTtlCache :
      (key : K) (promise : ℕ) (s : TtlCache K) (key_of : ℕ → Option K)
      → key_of promise ≡ some key
      → IsTtlCache ttl_ms s key_of
      → IsTtlCache ttl_ms (promise_rejects key promise s) key_of
  unfolding promise_rejects
  rejects-IsTtlCache key promise s key_of mine v =
      let low = v.known promise key mine in
      elim (Option-cases (find_entry key s.entries)) [
        | inl missing ↦
            rw (missing, promise_rejects)
              (reject-IsTtlCache ttl_ms promise s key_of low
                (λ k c at. elim (Bool-cases (promise == c.promise)) [
                  | inr n ↦ n
                  | inl y ↦
                      let k_is : k ≡ key =
                        own_key s key_of promise key k c v mine at (ground arith) in
                      absurd (let f : some c ≡ none = sym at ∙ rw k_is missing in cc f)
                ])
                v)
        | inr (current, found) ↦ elim (Bool-cases (current.promise == promise)) [
          | inl held ↦
              rw (found, promise_rejects, held)
                (reject-IsTtlCache ttl_ms promise
                  (record s { entries = delete_entry key s.entries }) key_of low
                  (λ k c at. elim (Bool-cases (promise == c.promise)) [
                    | inr n ↦ n
                    | inl y ↦ elim (Bool-cases (key == k)) [
                      | inl same ↦ absurd (
                          let f : none ≡ some c = rw (find-delete key k s.entries, same) at at in
                          cc f)
                      | inr other ↦
                          let at' = rw (find-delete key k s.entries, other) at at in
                          let k_is : k ≡ key =
                            own_key s key_of promise key k c v mine at' (ground arith) in
                          absurd (
                            let f : true ≡ false =
                              sym ((e.equals_iff key k).1 (sym k_is)) ∙ other in
                            cc f)
                    ]
                  ])
                  (delete-IsTtlCache ttl_ms key s key_of v))
          | inr else' ↦
              rw (found, promise_rejects, else')
                (reject-IsTtlCache ttl_ms promise s key_of low
                  (λ k c at. elim (Bool-cases (promise == c.promise)) [
                    | inr n ↦ n
                    | inl y ↦
                        let k_is : k ≡ key =
                          own_key s key_of promise key k c v mine at (ground arith) in
                        let f : some c ≡ some current = sym at ∙ rw k_is found in
                        let c_is : c ≡ current = cc f in
                        absurd (
                          let g : (current.promise == promise) ≡ true =
                            rw (← c_is) (ground arith) in
                          let h : true ≡ false = sym g ∙ else' in cc h)
                  ])
                  v)
        ]
      ]

  Reach-IsTtlCache :
      {s : TtlCache K} {key_of : ℕ → Option K}
      → TtlReach ttl_ms s key_of
      → IsTtlCache ttl_ms s key_of
  unfolding invalidate find_entry
  Reach-IsTtlCache (nothing times) = record {
    kept = λ k c at. absurd (let f : none ≡ some c = at in cc f);
    known = λ p k h. absurd (let f : none ≡ some k = h in cc f);
    made = λ p h. absurd (let f : false ≡ true = h in cc f);
  }
  Reach-IsTtlCache (got {s} {key_of} key now r) =
      get-IsTtlCache ttl_ms key now s key_of (Reach-IsTtlCache r)
  Reach-IsTtlCache (rejects {s} {key_of} key promise r mine) =
      rejects-IsTtlCache key promise s key_of mine (Reach-IsTtlCache r)
  Reach-IsTtlCache (invalidated {s} {key_of} (some key) r) =
      delete-IsTtlCache ttl_ms key s key_of (Reach-IsTtlCache r)
  Reach-IsTtlCache (invalidated {s} {key_of} none r) =
      let v = Reach-IsTtlCache r in
      record {
        kept = λ k c at. absurd (let f : none ≡ some c = at in cc f);
        known = v.known;
        made = v.made;
      }

-- However calls, rejections and invalidations interleave, `get` gives out a promise that was made
-- for its key, less than the time to live ago, and whose rejection has not been handled yet.
pub fresh_promise_given :
    {K : Type 0} ⦃e : Comparable K⦄ (ttl_ms : ℕ) {s : TtlCache K} {key_of : ℕ → Option K} (key : K)
    (now : ℕ)
    → 1 ≤ ttl_ms
    → TtlReach ttl_ms s key_of
    → (now < (ttl_get ttl_ms key now s).1.fetched_at (ttl_get ttl_ms key now s).0 + ttl_ms)
      × (contains (ttl_get ttl_ms key now s).1.rejected (ttl_get ttl_ms key now s).0 ≡ false)
      × ((ttl_get ttl_ms key now s).0 ≡ s.next_promise
          ⊎ key_of (ttl_get ttl_ms key now s).0 ≡ some key)
unfolding ttl_get fetch_entry
fresh_promise_given ttl_ms {s} {key_of} key now pos r =
    let v = Reach-IsTtlCache ttl_ms r in
    let own : (s.next_promise == s.next_promise) ≡ true =
      (nat_beq_iff s.next_promise s.next_promise).1 refl in
    let fresh : contains s.rejected s.next_promise ≡ false =
      elim (Bool-cases (contains s.rejected s.next_promise)) [
        | inr n ↦ n
        | inl y ↦
            (let h : s.next_promise < s.next_promise = v.made s.next_promise y in
              absurd (omega (arith, h)))
      ] in
    elim (Option-cases (find_entry key s.entries)) [
      | inl missing ↦ rw (missing, ttl_get, own) (omega (arith, pos), fresh, inl refl)
      | inr (c, found) ↦ elim (Bool-cases (ltb now c.expires_at)) [
        | inr late ↦ rw (found, ttl_get, late, own) (omega (arith, pos), fresh, inl refl)
        | inl in_time ↦
            let (low, expires, live, made_for) = v.kept key c found in
            rw (found, ttl_get, in_time) (ground (arith, expires), live, inr made_for)
      ]
    ]
