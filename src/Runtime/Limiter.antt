-- ===== src/Runtime/Limiter.antt =====
-- `createAsyncLimiter` and `mapWithBoundedConcurrency` of packages/core/src/runtime.ts. Tasks stand
-- as numbers; `running` is the tasks whose function is being awaited, which the code keeps only as
-- a count.
pub mod Bounded
use hootifactory.Prelude.{
  ℕ, ◌+◌, ◌-◌, Bool, true, false, not, List, [], ◌∷◌, ◌++◌, ◌==◌, nat_eq, if◌then◌else◌, ltb, keep,
  max,
}

pub record Limiter : Type 0 where
  pub active : ℕ
  pub waiting : List ℕ
  pub running : List ℕ

abbrev pub idle : Limiter
idle = record { active = 0; waiting = []; running = [] }

-- `acquire`: the task runs at once, or it waits in the queue.
unfoldable pub acquire : ℕ → ℕ → Limiter → Limiter
acquire concurrency task l =
    if ltb l.active concurrency
    then record l { active = l.active + 1; running = task ∷ l.running }
    else record l { waiting = l.waiting ++ (task ∷ []) }

-- The first occurrence goes.
abbrev pub remove_one : ℕ → List ℕ → List ℕ
remove_one task [] = []
remove_one task (t ∷ ts) = let rest = remove_one task ts in if t == task then ts else t ∷ rest

-- The `finally` block: the slot passes to the first in the queue, or becomes free.
unfoldable pub release : ℕ → Limiter → Limiter
release task l = elim l.waiting [
  | next ∷ rest ↦ record l { waiting = rest; running = next ∷ remove_one task l.running }
  | [] ↦ record l { active = l.active - 1; running = remove_one task l.running }
]
