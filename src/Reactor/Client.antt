-- ===== src/Reactor/Client.antt =====
-- handle_client_data: what is written back, and the end of a connection.
use swe_daily_challenge.Base.{
  ℕ, ◌≡◌, refl, ap, ap₂, ◌⊎◌, inl, inr, Option, none, some, List, [], ◌∷◌, ◌++◌, map, length, take,
}
use swe_daily_challenge.Reactor.{
  Read, would_block, broken, end_of_stream, received, Call, write, deregister, hang_up,
  handle_client_data,
}

-- The bytes that reached the peer.
abbrev pub delivered : List Call → List ℕ
delivered [] = []
delivered (write buf (some n) ∷ calls) = take n buf ++ delivered calls
delivered (write buf none ∷ calls) = delivered calls
delivered (deregister ∷ calls) = delivered calls
delivered (hang_up ∷ calls) = delivered calls

abbrev pub all_of : List (List ℕ) → List ℕ
all_of [] = []
all_of (chunk ∷ chunks) = chunk ++ all_of chunks

-- A chunk that is written back whole.
abbrev pub whole : List ℕ → Read
whole chunk = received chunk (some (length chunk))

take_all : (xs : List ℕ) → take (length xs) xs ≡ xs
take_all [] = refl
take_all (x ∷ xs) = ap (◌∷◌ x) (take_all xs)

abbrev pub writes : List (List ℕ × Option ℕ) → List Call
writes [] = []
writes ((buf, n) ∷ ws) = write buf n ∷ writes ws

-- Where each write is complete, the peer gets back all that it sent, in order, until read has no
-- more; then the handler returns without any other call for the connection, which stays open.
pub handle_client_data_echoes :
    (chunks : List (List ℕ)) (rest : List Read)
    → (delivered (handle_client_data (map whole chunks ++ would_block ∷ rest)) ≡ all_of chunks)
      × (handle_client_data (map whole chunks ++ would_block ∷ rest)
          ≡ writes (map (λ (chunk : List ℕ). (chunk, some (length chunk))) chunks))
unfolding handle_client_data
handle_client_data_echoes [] rest = (refl, refl)
handle_client_data_echoes (chunk ∷ chunks) rest = (
  ap₂ ◌++◌ (take_all chunk) (handle_client_data_echoes chunks rest).0,
  ap (◌∷◌ (write chunk (some (length chunk)))) (handle_client_data_echoes chunks rest).1,
)

-- Writes alone, or writes and then the end of the connection.
abbrev pub EndsOnce : List Call → Type 0
EndsOnce calls =
    (ws : List (List ℕ × Option ℕ)) × ((calls ≡ writes ws)
      ⊎ (calls ≡ writes ws ++ deregister ∷ hang_up ∷ []))

EndsOnce-write :
    (buf : List ℕ) (n : Option ℕ) (calls : List Call)
    → EndsOnce calls
    → EndsOnce (write buf n ∷ calls)
EndsOnce-write buf n calls (ws, inl going) = ((buf, n) ∷ ws, inl (ap (◌∷◌ (write buf n)) going))
EndsOnce-write buf n calls (ws, inr over) = ((buf, n) ∷ ws, inr (ap (◌∷◌ (write buf n)) over))

-- Whatever read and write return: the handler deregisters and closes the connection once at most,
-- in this order, and makes no call for it behind that.
pub handle_client_data-EndsOnce : (script : List Read) → EndsOnce (handle_client_data script)
unfolding handle_client_data
handle_client_data-EndsOnce [] = ([], inl refl)
handle_client_data-EndsOnce (would_block ∷ rest) = ([], inl refl)
handle_client_data-EndsOnce (broken ∷ rest) = ([], inr refl)
handle_client_data-EndsOnce (end_of_stream ∷ rest) = ([], inr refl)
handle_client_data-EndsOnce (received buf (some n) ∷ rest) =
    EndsOnce-write buf (some n) (handle_client_data rest) (handle_client_data-EndsOnce rest)
handle_client_data-EndsOnce (received buf none ∷ rest) = ((buf, none) ∷ [], inr refl)
