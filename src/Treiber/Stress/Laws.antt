-- ===== src/Treiber/Stress/Laws.antt =====
-- The check at the end of the stress test.
use Prim.Native.Nat.{min}
use swe_daily_challenge.Base.{
  ℕ, zero, suc, ◌+◌, ◌*◌, ◌<◌, ◌≤◌, ◌≡◌, refl, ap₂, Bool, true, false, ◌&&◌, none, some, List, [],
  ◌∷◌, ◌++◌, ◌==◌, if◌then◌else◌, length, eq→==, arith, inl, inr, Bool-cases,
}
use swe_daily_challenge.Treiber.{
  idle, System, Event, internal, calls_push, push_returns, calls_pop, pop_returns, empty_returns,
  Reach,
}
use swe_daily_challenge.Treiber.Values.{count, pushed, received, AreBelow}
use swe_daily_challenge.Treiber.Conserve.{received-pushed}
use swe_daily_challenge.Treiber.Stress.{produced, consumer, insert, merge, passes, Plays, ArePlayed}
use swe_daily_challenge.Treiber.Stress.Sets.{
  count-append, Marks, insert-Marks, merge-Marks, length_ones, produced_inside, produced_outside,
  all_present_lem,
}

-- The values that thread `i` has popped, as often as it has.
received_by : (i : ℕ) → List (ℕ × Event ℕ) → List ℕ
received_by i [] = []
received_by i ((j, pop_returns (some v)) ∷ es) =
    let rest = received_by i es in if i == j then v ∷ rest else rest
received_by i ((j, pop_returns none) ∷ es) = received_by i es
received_by i ((j, calls_push v) ∷ es) = received_by i es
received_by i ((j, internal) ∷ es) = received_by i es
received_by i ((j, push_returns) ∷ es) = received_by i es
received_by i ((j, calls_pop) ∷ es) = received_by i es
received_by i ((j, empty_returns b) ∷ es) = received_by i es

pick-Marks :
    (b : Bool) (v : ℕ) (set src : List ℕ)
    → Marks set src
    → Marks (if b then insert v set else set) (if b then v ∷ src else src)
pick-Marks true v set src m = insert-Marks v set src m
pick-Marks false v set src m = m

consumer-Marks : (i : ℕ) (es : List (ℕ × Event ℕ)) → Marks (consumer i es) (received_by i es)
unfolding consumer received_by count
consumer-Marks i [] = λ x. omega arith
consumer-Marks i ((j, pop_returns (some v)) ∷ es) =
    pick-Marks (i == j) v (consumer i es) (received_by i es) (consumer-Marks i es)
consumer-Marks i ((j, pop_returns none) ∷ es) = consumer-Marks i es
consumer-Marks i ((j, calls_push v) ∷ es) = consumer-Marks i es
consumer-Marks i ((j, internal) ∷ es) = consumer-Marks i es
consumer-Marks i ((j, push_returns) ∷ es) = consumer-Marks i es
consumer-Marks i ((j, calls_pop) ∷ es) = consumer-Marks i es
consumer-Marks i ((j, empty_returns b) ∷ es) = consumer-Marks i es

-- What thread `k` gets of a value that thread `j` receives.
abbrev share : (k j c : ℕ) → ℕ
share k j c = if k == j then c else 0

shares_lem : (j c : ℕ) → 4 ≤ j → j < 8 → share 4 j c + share 5 j c + share 6 j c + share 7 j c ≡ c
shares_lem (suc (suc (suc (suc zero)))) c low high = omega arith
shares_lem (suc (suc (suc (suc (suc zero))))) c low high = omega arith
shares_lem (suc (suc (suc (suc (suc (suc zero)))))) c low high = omega arith
shares_lem (suc (suc (suc (suc (suc (suc (suc zero))))))) c low high = omega arith
shares_lem (suc (suc (suc (suc (suc (suc (suc (suc j)))))))) c low high = absurd (omega arith)
shares_lem zero c low high = absurd (omega arith)
shares_lem (suc zero) c low high = absurd (omega arith)
shares_lem (suc (suc zero)) c low high = absurd (omega arith)
shares_lem (suc (suc (suc zero))) c low high = absurd (omega arith)

count-share :
    (x k j v : ℕ) (src : List ℕ)
    → count x (if k == j then v ∷ src else src) ≡ share k j (if x == v then 1 else 0) + count x src
unfolding count
count-share x k j v src = elim (Bool-cases (k == j)) [
  | inl t ↦ simp t refl
  | inr f ↦ simp f (omega arith)
]

-- The four consumers share what was received.
received_shares :
    (x : ℕ) (es : List (ℕ × Event ℕ))
    → ArePlayed es
    → count x (received es)
      ≡ count x (received_by 4 es)
        + count x (received_by 5 es)
        + count x (received_by 6 es)
        + count x (received_by 7 es)
unfolding received received_by ArePlayed count
received_shares x [] h = omega arith
received_shares x ((j, pop_returns (some v)) ∷ es) ((low, high), h) = omega (
  arith,
  received_shares x es h,
  shares_lem j (if x == v then 1 else 0) low high,
  count-share x 4 j v (received_by 4 es),
  count-share x 5 j v (received_by 5 es),
  count-share x 6 j v (received_by 6 es),
  count-share x 7 j v (received_by 7 es),
)
received_shares x ((j, pop_returns none) ∷ es) (p, h) = received_shares x es h
received_shares x ((j, calls_push v) ∷ es) (p, h) = received_shares x es h
received_shares x ((j, internal) ∷ es) (p, h) = received_shares x es h
received_shares x ((j, push_returns) ∷ es) (p, h) = received_shares x es h
received_shares x ((j, calls_pop) ∷ es) (p, h) = received_shares x es h
received_shares x ((j, empty_returns b) ∷ es) (p, h) = received_shares x es h

Plays-below : (i : ℕ) (e : Event ℕ) → Plays i e → i < 8
Plays-below i internal h = h
Plays-below i (calls_push v) h = omega arith
Plays-below i push_returns h = omega arith
Plays-below i calls_pop (low, high) = high
Plays-below i (pop_returns r) (low, high) = high
Plays-below i (empty_returns b) (low, high) = high

ArePlayed-AreBelow : (es : List (ℕ × Event ℕ)) → ArePlayed es → AreBelow 8 es
unfolding ArePlayed AreBelow
ArePlayed-AreBelow [] h = tt
ArePlayed-AreBelow ((i, e) ∷ es) (p, h) = (Plays-below i e p, ArePlayed-AreBelow es h)

merged :
    (other set o src : List ℕ) → Marks set src → Marks other o → Marks (merge other set) (src ++ o)
merged other set o src m m' x =
    omega (arith, merge-Marks other set src m x, m' x, count-append x src o)

abbrev all_sets : List (ℕ × Event ℕ) → List ℕ
all_sets es =
    merge (consumer 7 es) (merge (consumer 6 es) (merge (consumer 5 es) (merge (consumer 4 es) [])))

all_sets-received :
    (es : List (ℕ × Event ℕ))
    → ArePlayed es
    → (x : ℕ) → count x (all_sets es) ≡ min (count x (received es)) 1
unfolding count
all_sets-received es h x = omega (
  arith,
  received_shares x es h,
  merged (consumer 7 es) (merge (consumer 6 es) (merge (consumer 5 es) (merge (consumer 4 es) [])))
      (received_by 7 es) ((([] ++ received_by 4 es) ++ received_by 5 es) ++ received_by 6 es)
      (merged (consumer 6 es) (merge (consumer 5 es) (merge (consumer 4 es) [])) (received_by 6 es)
        (([] ++ received_by 4 es) ++ received_by 5 es)
        (merged (consumer 5 es) (merge (consumer 4 es) []) (received_by 5 es)
          ([] ++ received_by 4 es)
          (merged (consumer 4 es) [] (received_by 4 es) [] (λ y. omega arith) (consumer-Marks 4 es))
          (consumer-Marks 5 es))
        (consumer-Marks 6 es))
      (consumer-Marks 7 es) x,
  count-append x (([] ++ received_by 4 es) ++ received_by 5 es) (received_by 6 es),
  count-append x (received_by 4 es) (received_by 5 es),
  count-append x ((([] ++ received_by 4 es) ++ received_by 5 es) ++ received_by 6 es)
      (received_by 7 es),
)

passes_lem :
    (n : ℕ) (es : List (ℕ × Event ℕ))
    → ((x : ℕ) → count x (all_sets es) ≡ min (count x (produced n)) 1)
    → passes n es ≡ true
unfolding passes
passes_lem n es h =
    ap₂ (λ a b. a && b)
      (eq→== (length (all_sets es)) (4 * n) (length_ones (4 * n) (all_sets es) high low))
      (all_present_lem (4 * n) 0 (all_sets es) (λ x lt. low x (omega arith)))
  where
    high : (x : ℕ) → 4 * n ≤ x → count x (all_sets es) ≡ 0
    high x ge = omega (arith, h x, produced_outside n x ge)

    low : (x : ℕ) → x < 4 * n → count x (all_sets es) ≡ 1
    low x lt = omega (arith, h x, produced_inside n x lt)

-- The stress test passes, for any STRESS_TEST_N and whatever the schedule: where the threads play
-- the parts of the four producers and the four consumers, the producers have pushed all their
-- values, every thread is outside the stack, and the stack is empty, as it is when the consumers
-- have stopped, the four sets together have each value and no other.
pub passes_stress_test :
    {es : List (ℕ × Event ℕ)} {s : System ℕ} (n : ℕ)
    → Reach es s
    → ArePlayed es
    → ((i : ℕ) → s.pc i ≡ idle)
    → s.mem.head ≡ 0
    → ((x : ℕ) → count x (pushed es) ≡ count x (produced n))
    → passes n es ≡ true
passes_stress_test {es} n r played rest null all_pushed = passes_lem n es (λ x. omega (
  arith,
  all_sets-received es played x,
  received-pushed 8 x r (ArePlayed-AreBelow es played) rest null,
  all_pushed x,
))
