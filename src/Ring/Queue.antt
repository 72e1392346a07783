-- ===== src/Ring/Queue.antt =====
-- The bounded queue that the buffer stands for.
use swe_daily_challenge.Base.{
  ℕ, Option, none, some, List, [], ◌∷◌, ◌++◌, length, ltb, if◌then◌else◌,
}
use swe_daily_challenge.Ring.{Call, pushes, pops}

module _ {T : Type 0} (cap : ℕ) where
  abbrev pub more : Option T → List (Option T) × List T → List (Option T) × List T
  more result (results, dropped) = (result ∷ results, dropped)

  -- The results of the calls on a queue, and what is left in it. A full queue gives a value back.
  abbrev pub serve : List (Call T) → List T → List (Option T) × List T
  serve [] xs = ([], xs)
  serve (pushes val ∷ calls) xs =
      if ltb (length xs) cap
      then more none (serve calls (xs ++ (val ∷ [])))
      else more (some val) (serve calls xs)
  serve (pops ∷ calls) [] = more none (serve calls [])
  serve (pops ∷ calls) (x ∷ xs) = more (some x) (serve calls xs)
