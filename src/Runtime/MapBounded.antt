-- ===== src/Runtime/MapBounded.antt =====
-- `mapWithBoundedConcurrency` of packages/core/src/runtime.ts. `running` is the indices whose
-- worker function is being awaited, one for each loop that has not ended, and `failed` counts the
-- loops that a rejection has ended; the code keeps neither.
pub mod Complete
use hootifactory.Prelude.{
  ℕ, zero, suc, ◌+◌, Bool, true, false, List, [], ◌∷◌, Option, none, some, ◌==◌, nat_eq,
  if◌then◌else◌, ltb, min,
}
use hootifactory.Content.State.{update}
use hootifactory.Runtime.Limiter.{remove_one}

pub record MapState (R : Type 0) : Type 0 where
  pub next : ℕ
  pub running : List ℕ
  pub results : ℕ → Option R
  pub failed : ℕ

-- `while (next < items.length)`: a loop takes the next index, or ends.
unfoldable pub take_next : {R : Type 0} → ℕ → MapState R → MapState R
take_next items s =
    if ltb s.next items then record s { next = s.next + 1; running = s.next ∷ s.running } else s

unfoldable pub start_loops : {R : Type 0} → ℕ → ℕ → MapState R → MapState R
start_loops items zero s = s
start_loops items (suc n) s = start_loops items n (take_next items s)

-- The call, up to where all its loops wait for their first item.
unfoldable pub start_map : {R : Type 0} → ℕ → ℕ → MapState R
start_map items concurrency =
    start_loops items (min concurrency items)
      (record { next = 0; running = []; results = λ index. none; failed = 0 })

-- The item of a loop is done: its result is written, and the loop goes on.
unfoldable pub finish_item : {R : Type 0} → ℕ → ℕ → R → MapState R → MapState R
finish_item items index result s = take_next items (record s {
  running = remove_one index s.running;
  results = update s.results index (some result);
})

-- The item of a loop rejects, which ends the loop.
unfoldable pub fail_item : {R : Type 0} → ℕ → MapState R → MapState R
fail_item index s = record s { running = remove_one index s.running; failed = s.failed + 1 }
