-- ===== src/Runtime/TtlCache/Kept.antt =====
-- The entries that `createTtlPromiseCache` (packages/core/src/runtime.ts) keeps, and what `get`,
-- `invalidate` and a rejection do to them.
use hootifactory.Prelude.{
  ℕ, ◌+◌, ◌<◌, ◌≡◌, refl, inl, inr, true, false, [], ◌∷◌, Option, none, some, arith, ◌==◌, nat_eq,
  nat_beq_iff, Comparable, if◌then◌else◌, ltb, contains, Bool-cases, Option-cases,
}
use hootifactory.Content.State.{update}
use hootifactory.Runtime.Lru.{find_entry, delete_entry}
use hootifactory.Runtime.Lru.Lookup.{find-delete, find-set}
use hootifactory.Runtime.TtlCache.{
  CacheEntry, TtlCache, fetch_entry, ttl_get, promise_rejects, invalidate,
}

module _ {K : Type 0} ⦃e : Comparable K⦄ (ttl_ms : ℕ) where
  -- Which key a promise was made for.
  pub data TtlReach : TtlCache K → (ℕ → Option K) → Type 0 where
    nothing :
        (times : ℕ → ℕ)
        → TtlReach
            (record { entries = []; next_promise = 0; rejected = []; fetched_at = times })
            (λ p. none)
    got :
        {s : TtlCache K} {key_of : ℕ → Option K} (key : K) (now : ℕ)
        → TtlReach s key_of
        → TtlReach (ttl_get ttl_ms key now s).1 (
            if (ttl_get ttl_ms key now s).0 == s.next_promise
            then update key_of s.next_promise (some key)
            else key_of)
    rejects :
        {s : TtlCache K} {key_of : ℕ → Option K} (key : K) (promise : ℕ)
        → TtlReach s key_of
        → key_of promise ≡ some key
        → TtlReach (promise_rejects key promise s) key_of
    invalidated :
        {s : TtlCache K} {key_of : ℕ → Option K} (key : Option K)
        → TtlReach s key_of
        → TtlReach (invalidate key s) key_of

  -- What a promise in the map is: made, in time, not rejected, and for its key.
  abbrev pub IsKept : TtlCache K → (ℕ → Option K) → K → CacheEntry → Type 0
  IsKept s key_of key c =
      (c.promise < s.next_promise)
      × (c.expires_at ≡ s.fetched_at c.promise + ttl_ms)
      × (contains s.rejected c.promise ≡ false)
      × (key_of c.promise ≡ some key)

  pub record IsTtlCache (s : TtlCache K) (key_of : ℕ → Option K) : Type 0 where
    pub kept :
        (key : K) (c : CacheEntry) → find_entry key s.entries ≡ some c → IsKept s key_of key c
    pub known : (p : ℕ) (key : K) → key_of p ≡ some key → p < s.next_promise
    pub made : (p : ℕ) → contains s.rejected p ≡ true → p < s.next_promise

module _ {K : Type 0} ⦃e : Comparable K⦄ (ttl_ms : ℕ) where
  -- The keys that promises were made for, behind `get`.
  abbrev pub keys_behind : (ℕ → Option K) → TtlCache K → ℕ → K → ℕ → Option K
  keys_behind key_of s given key =
      if given == s.next_promise then update key_of s.next_promise (some key) else key_of

  pub fetch-IsTtlCache :
      (key : K) (now : ℕ) (s : TtlCache K) (key_of : ℕ → Option K)
      → IsTtlCache ttl_ms s key_of
      → IsTtlCache ttl_ms (fetch_entry ttl_ms key now s).1 (update key_of s.next_promise (some key))
  unfolding fetch_entry
  fetch-IsTtlCache key now s key_of v =
      let new : CacheEntry = record { expires_at = now + ttl_ms; promise = s.next_promise } in
      let own : (s.next_promise == s.next_promise) ≡ true =
        (nat_beq_iff s.next_promise s.next_promise).1 refl in
      let fresh : contains s.rejected s.next_promise ≡ false =
        elim (Bool-cases (contains s.rejected s.next_promise)) [
          | inr n ↦ n
          | inl y ↦
              let h : s.next_promise < s.next_promise = v.made s.next_promise y in
              absurd (omega (arith, h))
        ] in
      record {
        kept = λ k c at. elim (Bool-cases (key == k)) [
          | inl same ↦
              let f : some new ≡ some c = rw (find-set key k new s.entries, same) at at in
              let c_is : new ≡ c = cc f in
              let key_is : key ≡ k = (e.equals_iff key k).0 same in
              rw (← c_is, ← key_is) (omega arith, rw own refl, fresh, rw own refl)
          | inr other ↦
              let (low, expires, live, made_for) =
                v.kept k c (rw (find-set key k new s.entries, other) at at) in
              let apart : (s.next_promise == c.promise) ≡ false = ground arith in
              (omega (arith, low), rw apart expires, live, rw apart made_for)
        ];
        known = λ p k h. elim (Bool-cases (s.next_promise == p)) [
          | inl same ↦ ground arith
          | inr other ↦ omega (arith, v.known p k (rw other at h))
        ];
        made = λ p h. omega (arith, v.made p h);
      }

  pub get-IsTtlCache :
      (key : K) (now : ℕ) (s : TtlCache K) (key_of : ℕ → Option K)
      → IsTtlCache ttl_ms s key_of
      → IsTtlCache ttl_ms
          (ttl_get ttl_ms key now s).1
          (keys_behind key_of s (ttl_get ttl_ms key now s).0 key)
  unfolding ttl_get fetch_entry
  get-IsTtlCache key now s key_of v =
      let own : (s.next_promise == s.next_promise) ≡ true =
        (nat_beq_iff s.next_promise s.next_promise).1 refl in
      let fetched = fetch-IsTtlCache key now s key_of v in
      elim (Option-cases (find_entry key s.entries)) [
        | inl missing ↦ rw (missing, ttl_get, own) fetched
        | inr (c, found) ↦ elim (Bool-cases (ltb now c.expires_at)) [
          | inr late ↦ rw (found, ttl_get, late, own) fetched
          | inl in_time ↦
              let (low, expires, live, made_for) = v.kept key c found in
              let apart : (c.promise == s.next_promise) ≡ false = ground arith in
              rw (found, ttl_get, in_time, apart) v
        ]
      ]

  pub delete-IsTtlCache :
      (key : K) (s : TtlCache K) (key_of : ℕ → Option K)
      → IsTtlCache ttl_ms s key_of
      → IsTtlCache ttl_ms (record s { entries = delete_entry key s.entries }) key_of
  delete-IsTtlCache key s key_of v = record {
    kept = λ k c at. elim (Bool-cases (key == k)) [
      | inl same ↦
          absurd (let f : none ≡ some c = rw (find-delete key k s.entries, same) at at in cc f)
      | inr other ↦ v.kept k c (rw (find-delete key k s.entries, other) at at)
    ];
    known = v.known;
    made = v.made;
  }

  -- A rejection of a promise that no entry holds any more.
  pub reject-IsTtlCache :
      (promise : ℕ) (s : TtlCache K) (key_of : ℕ → Option K)
      → promise < s.next_promise
      → ((key : K) (c : CacheEntry)
          → find_entry key s.entries ≡ some c
          → (promise == c.promise) ≡ false)
      → IsTtlCache ttl_ms s key_of
      → IsTtlCache ttl_ms (record s { rejected = promise ∷ s.rejected }) key_of
  reject-IsTtlCache promise s key_of low free v = record {
    kept = λ k c at.
        let (below, expires, live, made_for) = v.kept k c at in
        (below, expires, rw (free k c at) live, made_for);
    known = v.known;
    made = λ p h. elim (Bool-cases (promise == p)) [
      | inl same ↦ ground arith
      | inr other ↦ v.made p (rw other at h)
    ];
  }
