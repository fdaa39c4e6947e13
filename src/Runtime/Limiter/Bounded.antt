-- ===== src/Runtime/Limiter/Bounded.antt =====
-- How many tasks `createAsyncLimiter` (packages/core/src/runtime.ts) runs at once.
use hootifactory.Prelude.{
  ℕ, ◌+◌, ◌≤◌, ◌≡◌, ◌≢◌, refl, true, List, [], ◌∷◌, arith, nat_eq, ltb, length, contains,
  Bool-cases, List-cases, inl, inr,
}
use hootifactory.Runtime.Limiter.{Limiter, idle, acquire, remove_one, release}

-- Calls of the limiter and ends of tasks that run, in any order.
pub data LimiterStep (concurrency : ℕ) (l : Limiter) : Limiter → Type 0 where
  called : (task : ℕ) → LimiterStep concurrency l (acquire concurrency task l)
  ended : (task : ℕ) → contains l.running task ≡ true → LimiterStep concurrency l (release task l)

pub data Limited (concurrency : ℕ) : Limiter → Type 0 where
  begin : Limited concurrency idle
  then_step :
      {l m : Limiter} → Limited concurrency l → LimiterStep concurrency l m → Limited concurrency m

-- The count is the number of tasks that run, never above the limit, and at the limit whenever a
-- task waits.
pub record IsLimited (concurrency : ℕ) (l : Limiter) : Type 0 where
  pub counted : length l.running ≡ l.active
  pub bounded : l.active ≤ concurrency
  pub busy : l.waiting ≢ [] → l.active ≡ concurrency

pub length-remove_one :
    (task : ℕ) (ts : List ℕ) → contains ts task ≡ true → length (remove_one task ts) + 1 ≡ length ts
length-remove_one task [] h = cc
length-remove_one task (t ∷ ts) h = ground (arith, length-remove_one task ts)

acquire-IsLimited : (c task : ℕ) (l : Limiter) → IsLimited c l → IsLimited c (acquire c task l)
unfolding acquire
acquire-IsLimited c task l v = elim (Bool-cases (ltb l.active c)) [
  | inl room ↦ rw room (record {
    counted = omega (arith, v.counted);
    bounded = ground arith;
    busy = λ some'. absurd (let full : l.active ≡ c = v.busy some' in ground arith);
  })
  | inr full ↦ rw full (record {
    counted = v.counted;
    bounded = v.bounded;
    busy = λ some'. ground (arith, v.bounded);
  })
]

release-IsLimited :
    (c task : ℕ) (l : Limiter)
    → contains l.running task ≡ true
    → IsLimited c l
    → IsLimited c (release task l)
unfolding release
release-IsLimited c task l runs v = elim (List-cases l.waiting) [
  | inl none' ↦
      rw (none', release)
        (record {
          counted = omega (arith, length-remove_one task l.running runs, v.counted);
          bounded = omega (arith, v.bounded);
          busy = λ some'. absurd (some' none');
        })
  | inr (next, rest, queue) ↦
      rw (queue, release)
        (record {
          counted = omega (arith, length-remove_one task l.running runs, v.counted);
          bounded = v.bounded;
          busy = λ some'. v.busy (rw queue (λ e. cc));
        })
]

-- However calls and ends of tasks interleave, the limiter runs at most `concurrency` tasks at once,
-- and that many whenever one waits.
pub limiter_bounded :
    (concurrency : ℕ) {l : Limiter} → Limited concurrency l → IsLimited concurrency l
limiter_bounded c begin = record {
  counted = refl;
  bounded = omega arith;
  busy = λ h. absurd (h refl);
}
limiter_bounded c (then_step {l} r (called task)) = acquire-IsLimited c task l (limiter_bounded c r)
limiter_bounded c (then_step {l} r (ended task runs)) =
    release-IsLimited c task l runs (limiter_bounded c r)
