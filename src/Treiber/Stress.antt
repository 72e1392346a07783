-- ===== src/Treiber/Stress.antt =====
-- The stress test of 02-treiber_lock_free_stack/main.cpp: four producers, four consumers, and the check.
pub mod Sets
pub mod Laws
pub mod Tests
use swe_daily_challenge.Base.{
  ℕ, zero, suc, ◌+◌, ◌*◌, ◌<◌, ◌≤◌, Bool, true, false, ◌&&◌, Option, none, some, List, [], ◌∷◌,
  ◌++◌, ◌==◌, if◌then◌else◌, length,
}
use swe_daily_challenge.Treiber.{
  Event, internal, calls_push, push_returns, calls_pop, pop_returns, empty_returns,
}

-- `for (int i = first; i < first + left; i++) stack.push(i)`: the values.
unfoldable pub values : (left first : ℕ) → List ℕ
values zero first = []
values (suc left) first = first ∷ values left (suc first)

-- `n` is STRESS_TEST_N.
unfoldable pub producer : (n k : ℕ) → List ℕ
unfolding values
producer n k = values n (k * n)

unfoldable pub produced : (n : ℕ) → List ℕ
unfolding producer
produced n = producer n 0 ++ (producer n 1 ++ (producer n 2 ++ producer n 3))

-- An unordered_set, and its `insert` and `count`.
unfoldable pub has : ℕ → List ℕ → Bool
has x [] = false
has x (y ∷ ys) = if x == y then true else has x ys

unfoldable pub insert : ℕ → List ℕ → List ℕ
unfolding has
insert x ys = if has x ys then ys else x ∷ ys

-- The values that thread `i` has popped, in its set: the events are those of a run, the last first.
unfoldable pub consumer : (i : ℕ) → List (ℕ × Event ℕ) → List ℕ
unfolding insert
consumer i [] = []
consumer i ((j, pop_returns (some v)) ∷ es) =
    let set = consumer i es in if i == j then insert v set else set
consumer i ((j, pop_returns none) ∷ es) = consumer i es
consumer i ((j, calls_push v) ∷ es) = consumer i es
consumer i ((j, internal) ∷ es) = consumer i es
consumer i ((j, push_returns) ∷ es) = consumer i es
consumer i ((j, calls_pop) ∷ es) = consumer i es
consumer i ((j, empty_returns b) ∷ es) = consumer i es

-- `all_sets.merge(other)`
unfoldable pub merge : (other all_sets : List ℕ) → List ℕ
unfolding insert
merge [] all_sets = all_sets
merge (x ∷ other) all_sets = merge other (insert x all_sets)

-- `for (int i = 0; i < expected && ok; ++i) ok = all_sets.count(i) == 1`
unfoldable pub all_present : (left i : ℕ) → List ℕ → Bool
unfolding has
all_present zero i all_sets = true
all_present (suc left) i all_sets =
    let rest = all_present left (suc i) all_sets in has i all_sets && rest

-- `ok` at the end of main, where threads 0 to 3 are the producers and 4 to 7 the consumers.
unfoldable pub passes : (n : ℕ) → List (ℕ × Event ℕ) → Bool
unfolding merge consumer all_present
passes n es =
    let all_sets =
      merge (consumer 7 es)
        (merge (consumer 6 es) (merge (consumer 5 es) (merge (consumer 4 es) []))) in
    (length all_sets == 4 * n) && all_present (4 * n) 0 all_sets

-- What each thread does: a producer pushes, a consumer pops and looks.
abbrev pub Plays : ℕ → Event ℕ → Type 0
Plays i internal = i < 8
Plays i (calls_push v) = i < 4
Plays i push_returns = i < 4
Plays i calls_pop = (4 ≤ i) × (i < 8)
Plays i (pop_returns r) = (4 ≤ i) × (i < 8)
Plays i (empty_returns b) = (4 ≤ i) × (i < 8)

unfoldable pub ArePlayed : List (ℕ × Event ℕ) → Type 0
ArePlayed [] = Unit
ArePlayed ((i, e) ∷ es) = Plays i e × ArePlayed es
