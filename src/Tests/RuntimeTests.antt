-- ===== src/Tests/RuntimeTests.antt =====
-- Tests of packages/core/src/runtime.ts.
use hootifactory.Content.State.{update}
use hootifactory.Runtime.MapBounded.{MapState, take_next, start_loops, start_map, finish_item}
use hootifactory.Runtime.MapBounded.Complete.{distinct_indices, Mapping, map_complete}
use hootifactory.Runtime.TtlCache.{TtlCache, fetch_entry, ttl_get, promise_rejects}
use hootifactory.Runtime.TtlCache.Fresh.{fresh_promise_given}
use hootifactory.Runtime.TtlCache.Kept.{TtlReach}
use hootifactory.Prelude.{
  ◌⊎◌, ◌*◌, ◌+◌, ◌<◌, contains, false, none, ℕ, ◌≤◌, ◌≡◌, refl, arith, true, [], ◌∷◌, some, nat_eq,
  Option, length,
}
use hootifactory.Runtime.Lru.{Entries, find_entry, delete_entry, evict, cache_get, cache_set}
use hootifactory.Runtime.Lru.Bounds.{distinct_keys, CacheStep, Cached, cache_stays_bounded}
use hootifactory.Runtime.Lru.Recency.{set_each, recent_entry_found}
use hootifactory.Runtime.Limiter.{Limiter, idle, acquire, release}
use hootifactory.Runtime.Limiter.Bounded.{LimiterStep, Limited, IsLimited, limiter_bounded}
use hootifactory.Runtime.InFlight.{InFlight, none_in_flight, run_load, settle}
use hootifactory.Runtime.InFlight.Shared.{DeduperStep, Deduping, one_load_per_key}

-- Two sets fill a cache of two, a hit makes the first the newest, and a third set drops the second.
abbrev filled : Entries ℕ ℕ
filled = cache_set 2 6 60 (cache_set 2 5 50 [])

hit_then_set : cache_set 2 7 70 (cache_get 5 filled).1 ≡ (5, 50) ∷ (7, 70) ∷ []
unfolding cache_set cache_get evict delete_entry find_entry
hit_then_set = refl

filled-Cached : Cached 2 (cache_set 2 7 70 (cache_get 5 filled).1)
filled-Cached =
    Cached.then_step
      (Cached.then_step
        (Cached.then_step (Cached.then_step Cached.fresh (CacheStep.set 5 50)) (CacheStep.set 6 60))
        (CacheStep.got 5))
      (CacheStep.set 7 70)

cache_stays_bounded_example :
    (length (cache_set 2 7 70 (cache_get 5 filled).1) ≤ 2)
    × (distinct_keys (cache_set 2 7 70 (cache_get 5 filled).1) ≡ true)
cache_stays_bounded_example = cache_stays_bounded 2 (omega arith) filled-Cached

recent_entry_found_example :
    find_entry {K = ℕ} {V = ℕ} 5
      (set_each 2 ((6, 60) ∷ []) (cache_set 2 5 50 ((1, 10) ∷ (2, 20) ∷ [])))
    ≡ some 50
recent_entry_found_example =
    recent_entry_found 2 5 50 ((6, 60) ∷ []) ((1, 10) ∷ (2, 20) ∷ []) (omega arith) refl

-- Two calls of a limiter of one, and the end of the first.
abbrev two_called : Limiter
two_called = acquire 1 9 (acquire 1 8 idle)

runs_first : two_called ≡ record { active = 1; waiting = 9 ∷ []; running = 8 ∷ [] }
unfolding acquire
runs_first = refl

two_called-Limited : Limited 1 (release 8 two_called)
unfolding acquire
two_called-Limited =
    Limited.then_step
      (Limited.then_step (Limited.then_step Limited.begin (LimiterStep.called 8))
        (LimiterStep.called 9))
      (LimiterStep.ended 8 refl)

limiter_bounded_example : IsLimited 1 (release 8 two_called)
limiter_bounded_example = limiter_bounded 1 two_called-Limited

-- Two calls with one key share a load; another key has its own.
abbrev loading : InFlight ℕ
loading = (run_load 4 (run_load 3 (run_load 3 none_in_flight).1).1).1

shared_load : loading.in_flight ≡ (3, 0) ∷ (4, 1) ∷ []
unfolding run_load find_entry
shared_load = refl

loading-Deduping : Deduping (settle 3 0 loading)
unfolding run_load find_entry
loading-Deduping =
    Deduping.then_step
      (Deduping.then_step
        (Deduping.then_step (Deduping.then_step Deduping.begin (DeduperStep.called 3))
          (DeduperStep.called 3))
        (DeduperStep.called 4))
      (DeduperStep.settled 3 0 [] ((4, 1) ∷ []) refl)

one_load_per_key_example :
    ((settle 3 0 loading).in_flight ≡ (settle 3 0 loading).pending)
    × (distinct_keys (settle 3 0 loading).pending ≡ true)
one_load_per_key_example = one_load_per_key loading-Deduping

-- Two loops over three items: the second item ends first, and its loop takes the third.
abbrev squares : ℕ → ℕ
squares i = i * i

abbrev two_started : MapState ℕ
two_started = start_map 3 2

abbrev all_mapped : MapState ℕ
all_mapped = finish_item 3 2 4 (finish_item 3 0 0 (finish_item 3 1 1 two_started))

second_goes_on : (finish_item 3 1 1 two_started).running ≡ 2 ∷ 0 ∷ []
unfolding start_map start_loops take_next finish_item
second_goes_on = refl

all_mapped-Mapping : Mapping squares 3 2 all_mapped
unfolding start_map start_loops take_next finish_item
all_mapped-Mapping =
    Mapping.finished 2 (Mapping.finished 0 (Mapping.finished 1 Mapping.started refl) refl) refl

map_complete_example :
    (length all_mapped.running ≤ 2)
    × (distinct_indices all_mapped.running ≡ true)
    × (all_mapped.running ≡ []
        → all_mapped.failed ≡ 0
        → (i : ℕ) → i < 3
        → all_mapped.results i ≡ some (squares i))
map_complete_example = map_complete squares 3 2 (omega arith) all_mapped-Mapping

-- A promise that is rejected is made anew by the next call.
abbrev no_promises : TtlCache ℕ
no_promises = record { entries = []; next_promise = 0; rejected = []; fetched_at = λ p. 0 }

abbrev after_rejection : TtlCache ℕ
after_rejection = promise_rejects 5 0 (ttl_get 10 5 100 no_promises).1

fetched_anew : (ttl_get 10 5 101 after_rejection).0 ≡ 1
unfolding ttl_get fetch_entry promise_rejects find_entry delete_entry
fetched_anew = refl

given_again : (ttl_get 10 5 109 (ttl_get 10 5 100 no_promises).1).0 ≡ 0
unfolding ttl_get fetch_entry find_entry delete_entry
given_again = refl

-- The first promise was made for the key five.
abbrev made_for_five : ℕ → Option ℕ
made_for_five = update (λ p. none) 0 (some 5)

after_rejection-TtlReach : TtlReach 10 after_rejection made_for_five
unfolding ttl_get fetch_entry find_entry
after_rejection-TtlReach =
    TtlReach.rejects 5 0 (TtlReach.got 5 100 (TtlReach.nothing (λ p. 0))) refl

fresh_promise_given_example :
    (101
      < (ttl_get 10 5 101 after_rejection).1.fetched_at (ttl_get 10 5 101 after_rejection).0 + 10)
    × (contains (ttl_get 10 5 101 after_rejection).1.rejected (ttl_get 10 5 101 after_rejection).0
        ≡ false)
    × ((ttl_get 10 5 101 after_rejection).0 ≡ after_rejection.next_promise
        ⊎ made_for_five (ttl_get 10 5 101 after_rejection).0 ≡ some 5)
fresh_promise_given_example = fresh_promise_given 10 5 101 (omega arith) after_rejection-TtlReach
