-- ===== src/Auth/Throttle.antt =====
-- packages/auth/src/throttle.ts. The rows of `auth_throttle_buckets` by the hash of scope and key,
-- which is a parameter; times are milliseconds.
pub mod Window
use hootifactory.Prelude.{
  ℕ, ◌+◌, ◌-◌, ◌*◌, ◌/◌, Bool, true, false, Option, none, some, ◌==◌, nat_eq, if◌then◌else◌, ltb,
  leb, max,
}
use hootifactory.Content.State.{update}

pub record Bucket : Type 0 where
  pub count : ℕ
  pub reset_at : ℕ

abbrev pub Buckets : Type 0
Buckets = ℕ → Option Bucket

pub data ThrottleResult : Type 0 where
  passed : Bucket → ThrottleResult
  throttled : ℕ → Bucket → ThrottleResult

-- The row behind the insert, or behind the update of a conflicting row.
abbrev pub next_bucket : ℕ → ℕ → Option Bucket → Bucket
next_bucket now reset none = record { count = 1; reset_at = reset }
next_bucket now reset (some b) = record {
  count = if leb b.reset_at now then 1 else b.count + 1;
  reset_at = if leb b.reset_at now then reset else b.reset_at;
}

-- `Math.max(1, Math.ceil((resetAt - now) / 1000))`: where the reset is past, both give 1.
unfoldable pub retry_after_seconds : Bucket → ℕ → ℕ
retry_after_seconds b now = max 1 ((b.reset_at - now + 999) / 1000)

abbrev pub throttle_result : ℕ → ℕ → Bucket → ThrottleResult
throttle_result now max_attempts b =
    if leb b.count max_attempts then passed b else throttled (retry_after_seconds b now) b

module _ (bucket_hash : ℕ → ℕ → ℕ) where
  unfoldable pub consume_bucket : ℕ → ℕ → ℕ → ℕ → ℕ → Buckets → ThrottleResult × Buckets
  consume_bucket scope key window_seconds max_attempts now buckets =
      let hash = bucket_hash scope key in
      let b = next_bucket now (now + window_seconds * 1000) (buckets hash) in
      (throttle_result now max_attempts b, update buckets hash (some b))

  unfoldable pub clear_bucket : ℕ → ℕ → Buckets → Buckets
  clear_bucket scope key buckets = update buckets (bucket_hash scope key) none

-- The delete; the number of rows is left out.
unfoldable pub sweep_expired : ℕ → Buckets → Buckets
sweep_expired now buckets hash = elim (buckets hash) [
  | none ↦ none
  | some b ↦ if ltb b.reset_at now then none else some b
]
