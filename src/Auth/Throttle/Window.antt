-- ===== src/Auth/Throttle/Window.antt =====
-- How many attempts packages/auth/src/throttle.ts lets pass.
use hootifactory.Prelude.{
  ℕ, ◌+◌, ◌-◌, ◌*◌, ◌/◌, ◌≤◌, ◌<◌, ◌≡◌, refl, true, false, List, [], ◌∷◌, none, some, arith, ◌==◌,
  nat_eq, nat_beq_iff, if◌then◌else◌, leb, min, max, length, All, Bool-cases, inl, inr,
}
use hootifactory.Auth.Throttle.{
  Bucket, Buckets, ThrottleResult, passed, throttled, next_bucket, retry_after_seconds,
  throttle_result, consume_bucket,
}

abbrev pub passes : ThrottleResult → ℕ
passes (passed b) = 1
passes (throttled n b) = 0

module _ (bucket_hash : ℕ → ℕ → ℕ) (scope key window max_attempts : ℕ) where
  -- How many of the attempts at the given times pass.
  unfoldable pub passed_attempts : List ℕ → Buckets → ℕ
  passed_attempts [] buckets = 0
  passed_attempts (now ∷ times) buckets =
      let r = consume_bucket bucket_hash scope key window max_attempts now buckets in
      passes r.0 + passed_attempts times r.1

  consume_open :
      (now : ℕ) (buckets : Buckets) (b : Bucket)
      → buckets (bucket_hash scope key) ≡ some b
      → now < b.reset_at
      → (passes (consume_bucket bucket_hash scope key window max_attempts now buckets).0
          ≡ (if leb (b.count + 1) max_attempts then 1 else 0))
        × ((consume_bucket bucket_hash scope key window max_attempts now buckets).1
              (bucket_hash scope key)
            ≡ some (record b { count = b.count + 1 }))
  unfolding consume_bucket
  consume_open now buckets b at early =
      let open' : leb b.reset_at now ≡ false = ground arith in
      let self : (bucket_hash scope key == bucket_hash scope key) ≡ true =
        (nat_beq_iff (bucket_hash scope key) (bucket_hash scope key)).1 refl in
      rw (at, open', self)
        (elim (Bool-cases (leb (b.count + 1) max_attempts)) [
          | inl y ↦ rw y (refl, refl)
          | inr n ↦ rw n (refl, refl)
        ])

  open_window :
      (times : List ℕ) (buckets : Buckets) (b : Bucket)
      → buckets (bucket_hash scope key) ≡ some b
      → All (λ t. t < b.reset_at) times
      → min b.count max_attempts + passed_attempts times buckets
        ≡ min (b.count + length times) max_attempts
  unfolding passed_attempts
  open_window [] buckets b at early = omega arith
  open_window (now ∷ times) buckets b at (early, rest) =
      let (pass, next) = consume_open now buckets b at early in
      let ih =
        open_window times (consume_bucket bucket_hash scope key window max_attempts now buckets).1
          (record b { count = b.count + 1 }) next rest in
      elim (Bool-cases (leb (b.count + 1) max_attempts)) [
        | inl y ↦
            let p : b.count + 1 ≤ max_attempts = ground arith in omega (arith, rw y at pass, ih, p)
        | inr n ↦
            let p : max_attempts < b.count + 1 = ground arith in omega (arith, rw n at pass, ih, p)
      ]

  first_attempt :
      (now : ℕ) (buckets : Buckets)
      → buckets (bucket_hash scope key) ≡ none
      → (passes (consume_bucket bucket_hash scope key window max_attempts now buckets).0
          ≡ (if leb 1 max_attempts then 1 else 0))
        × ((consume_bucket bucket_hash scope key window max_attempts now buckets).1
              (bucket_hash scope key)
            ≡ some (record { count = 1; reset_at = now + window * 1000 }))
  unfolding consume_bucket
  first_attempt now buckets at =
      let self : (bucket_hash scope key == bucket_hash scope key) ≡ true =
        (nat_beq_iff (bucket_hash scope key) (bucket_hash scope key)).1 refl in
      rw (at, self)
        (elim (Bool-cases (leb 1 max_attempts)) [
          | inl y ↦ rw y (refl, refl)
          | inr n ↦ rw n (refl, refl)
        ])

-- Of the attempts of one scope and key at times within the window of the first, which finds no
-- bucket, the first `maxAttempts` pass and the others are throttled, in number.
pub passed_attempts_lem :
    (bucket_hash : ℕ → ℕ → ℕ) (scope key window max_attempts now : ℕ) (times : List ℕ)
    (buckets : Buckets)
    → buckets (bucket_hash scope key) ≡ none
    → All (λ t. t < now + window * 1000) times
    → passed_attempts bucket_hash scope key window max_attempts (now ∷ times) buckets
      ≡ min (length (now ∷ times)) max_attempts
unfolding passed_attempts
passed_attempts_lem bucket_hash scope key window m now times buckets fresh within =
    let (pass, next) = first_attempt bucket_hash scope key window m now buckets fresh in
    let rest =
      open_window bucket_hash scope key window m times
        (consume_bucket bucket_hash scope key window m now buckets).1
        (record { count = 1; reset_at = now + window * 1000 }) next within in
    elim (Bool-cases (leb 1 m)) [
      | inl y ↦ let p : 1 ≤ m = ground arith in omega (arith, rw y at pass, rest, p)
      | inr n ↦ let p : m < 1 = ground arith in omega (arith, rw n at pass, rest, p)
    ]

ceil_covers : (n : ℕ) → n ≤ max 1 ((n + 999) / 1000) * 1000
ceil_covers n = omega arith

throttled_lem :
    (now m seconds : ℕ) (b c : Bucket)
    → throttle_result now m c ≡ throttled seconds b
    → seconds ≡ retry_after_seconds c now
throttled_lem now m seconds b c h = elim (Bool-cases (leb c.count m)) [
  | inl y ↦ absurd (let e : passed c ≡ throttled seconds b = rw y at h in cc)
  | inr n ↦ let e : throttled (retry_after_seconds c now) c ≡ throttled seconds b = rw n at h in cc
]

expired_passes :
    (bucket_hash : ℕ → ℕ → ℕ) (scope key window m later : ℕ) (buckets : Buckets) (c : Bucket)
    → 1 ≤ m
    → buckets (bucket_hash scope key) ≡ some c
    → c.reset_at ≤ later
    → passes (consume_bucket bucket_hash scope key window m later buckets).0 ≡ 1
unfolding consume_bucket
expired_passes bucket_hash scope key window m later buckets c some' at over =
    let o : leb c.reset_at later ≡ true = ground arith in
    let y : leb 1 m ≡ true = ground arith in rw (at, o, y) refl

reset_past :
    (now later seconds : ℕ) (c : Bucket)
    → seconds ≡ retry_after_seconds c now
    → now + seconds * 1000 ≤ later
    → c.reset_at ≤ later
unfolding retry_after_seconds
reset_past now later seconds c e wait = omega (arith, e, wait, ceil_covers (c.reset_at - now))

consume_stores :
    (bucket_hash : ℕ → ℕ → ℕ) (scope key window m now : ℕ) (buckets : Buckets)
    → (c : Bucket) × ((consume_bucket bucket_hash scope key window m now buckets).1
          (bucket_hash scope key)
        ≡ some c)
      × ((consume_bucket bucket_hash scope key window m now buckets).0 ≡ throttle_result now m c)
unfolding consume_bucket
consume_stores bucket_hash scope key window m now buckets =
    let self : (bucket_hash scope key == bucket_hash scope key) ≡ true =
      (nat_beq_iff (bucket_hash scope key) (bucket_hash scope key)).1 refl in
    (next_bucket now (now + window * 1000) (buckets (bucket_hash scope key)), rw self refl, refl)

-- The delay that a throttled caller is told suffices: an attempt at least that many seconds later
-- passes, if one attempt is allowed at all and nobody else has used the bucket in between.
pub retry_after_suffices :
    (bucket_hash : ℕ → ℕ → ℕ) (scope key window max_attempts now later seconds : ℕ) (b : Bucket)
    (buckets : Buckets)
    → 1 ≤ max_attempts
    → (consume_bucket bucket_hash scope key window max_attempts now buckets).0 ≡ throttled seconds b
    → now + seconds * 1000 ≤ later
    → passes
        (consume_bucket bucket_hash scope key window max_attempts later
          (consume_bucket bucket_hash scope key window max_attempts now buckets).1).0
      ≡ 1
retry_after_suffices bucket_hash scope key window m now later seconds b buckets some' h wait =
    let (c, stored, result) = consume_stores bucket_hash scope key window m now buckets in
    let e : seconds ≡ retry_after_seconds c now =
      throttled_lem now m seconds b c (rw result at h) in
    expired_passes bucket_hash scope key window m later
      (consume_bucket bucket_hash scope key window m now buckets).1 c some' stored
      (reset_past now later seconds c e wait)
