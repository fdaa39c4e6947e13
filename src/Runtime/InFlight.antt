-- ===== src/Runtime/InFlight.antt =====
-- `InFlightDeduper` of packages/core/src/runtime.ts. A promise stands as a number, `next_promise` is
-- the next one made, and `pending` is the loads whose promise has not run its `finally` yet, which
-- the code does not keep.
pub mod Shared
use hootifactory.Prelude.{
  ℕ, ◌+◌, List, [], ◌∷◌, ◌++◌, Option, none, some, ◌==◌, nat_eq, Comparable, if◌then◌else◌, ◌&&◌,
}
use hootifactory.Runtime.Lru.{Entries, find_entry, delete_entry}

pub record InFlight (K : Type 0) : Type 0 where
  pub in_flight : Entries K ℕ
  pub pending : List (K × ℕ)
  pub next_promise : ℕ

abbrev pub none_in_flight : {K : Type 0} → InFlight K
none_in_flight = record { in_flight = []; pending = []; next_promise = 0 }

module _ {K : Type 0} ⦃e : Comparable K⦄ where
  -- `run`: the promise it returns, and what it leaves.
  unfoldable pub run_load : K → InFlight K → ℕ × InFlight K
  run_load key s = elim (find_entry key s.in_flight) [
    | some promise ↦ (promise, s)
    | none ↦ (
      s.next_promise,
      record {
        in_flight = s.in_flight ++ ((key, s.next_promise) ∷ []);
        pending = s.pending ++ ((key, s.next_promise) ∷ []);
        next_promise = s.next_promise + 1;
      },
    )
  ]

  -- The load is over: the first such pair goes.
  abbrev pub remove_load : K → ℕ → List (K × ℕ) → List (K × ℕ)
  remove_load key promise [] = []
  remove_load key promise ((k, p) ∷ ls) =
      let rest = remove_load key promise ls in
      if k == key && p == promise then ls else (k, p) ∷ rest

  -- What `finally` does for the load's promise.
  unfoldable pub settle : K → ℕ → InFlight K → InFlight K
  settle key promise s = record {
    in_flight = elim (find_entry key s.in_flight) [
      | none ↦ s.in_flight
      | some current ↦ if current == promise then delete_entry key s.in_flight else s.in_flight
    ];
    pending = remove_load key promise s.pending;
    next_promise = s.next_promise;
  }
