-- ===== src/Dns/Response/Truncated.antt =====
-- A response that breaks off inside the fields of a record.
use swe_daily_challenge.Base.{
  ℕ, zero, suc, ◌+◌, ◌≤◌, ◌<◌, ◌≡◌, refl, ap, ◌∙◌, none, Option, some, List, [], ◌∷◌, ◌++◌, eq→==,
  length, length-append, get_elem?, arith,
}
use swe_daily_challenge.Dns.Types.{DnsHeader, htons_bytes}
use swe_daily_challenge.Dns.Header.{print_header}
use swe_daily_challenge.Dns.Skip.Laws.{NameEnd, IsEnd, AreLabels, name_bytes, skip_name_lem}
use swe_daily_challenge.Dns.Response.{
  received, header_lines, blank, Trace, faults, ◌>>=◌, answer_at, answers, parse_response,
}
use swe_daily_challenge.Dns.Response.Spec.{printing}
use swe_daily_challenge.Dns.Response.Packets.{
  IsHeader, Question, IsQuestion, response_bytes, enter_lem, question_end, length-question_end,
  parse_body_lem,
}

>>=-faults : (o : Option ℕ) (k : ℕ → Trace) → ((x : ℕ) → k x ≡ faults) → (o >>= k) ≡ faults
>>=-faults none k h = refl
>>=-faults (some x) k h = h x

get_elem?_beyond : (xs : List ℕ) (i : ℕ) → length xs ≤ i → get_elem? xs i ≡ none
get_elem?_beyond [] i h = refl
get_elem?_beyond (x ∷ xs) zero h = absurd (omega arith)
get_elem?_beyond (x ∷ xs) (suc i) h = get_elem?_beyond xs i (omega arith)

-- The last of the ten bytes is missing.
answer_at-faults :
    (buf : List ℕ) (pos : ℕ) (next : ℕ → Trace)
    → length buf < pos + 10
    → answer_at buf pos next ≡ faults
unfolding answer_at
answer_at-faults buf pos next h = >>=-faults (get_elem? buf pos) _ λ a.
    >>=-faults (get_elem? buf (pos + 1)) _ λ b. >>=-faults (get_elem? buf (pos + 2)) _ λ c.
      >>=-faults (get_elem? buf (pos + 2 + 1)) _ λ d.
        >>=-faults (get_elem? buf (pos + 2 + 2)) _ λ e.
          >>=-faults (get_elem? buf (pos + 2 + 2 + 1)) _ λ f.
            >>=-faults (get_elem? buf (pos + 2 + 2 + 2)) _ λ g.
              >>=-faults (get_elem? buf (pos + 2 + 2 + 3)) _ λ i.
                >>=-faults (get_elem? buf (pos + 2 + 2 + 4)) _
                  λ j. rw (get_elem?_beyond buf (pos + 2 + 2 + 4 + 1) (omega arith)) refl

-- The loop, from a name that is followed by too few bytes.
answers_truncated :
    (more an : ℕ) (pre : List ℕ) (ls : List (List ℕ)) (e : NameEnd) (fields : List ℕ) (len : ℕ)
    → AreLabels ls
    → IsEnd e
    → length fields < 10
    → length pre + length (name_bytes ls e) ≤ len
    → answers (suc more) an (pre ++ (name_bytes ls e ++ fields)) len (length pre) ≡ faults
unfolding answers
answers_truncated more an pre ls e fields len labels ending short fits =
    rw (skip_name_lem pre ls e fields len labels ending fits) (
      answer_at-faults (pre ++ (name_bytes ls e ++ fields)) (length pre + length (name_bytes ls e))
        (answers more (an + 1) (pre ++ (name_bytes ls e ++ fields)) len)
        (omega (
          arith,
          length-append pre (name_bytes ls e ++ fields),
          length-append (name_bytes ls e) fields,
        )))

-- A packet that fills its buffer and ends within ten bytes behind the name of its first record: the
-- fields are read past the end of the buffer.
pub parse_response_truncated :
    (h : DnsHeader) (q : Question) (ls : List (List ℕ)) (e : NameEnd) (fields : List ℕ) (more : ℕ)
    → IsHeader h
    → h.ancount ≡ suc more
    → IsQuestion q
    → AreLabels ls
    → IsEnd e
    → length fields < 10
    → let buf = response_bytes h q (name_bytes ls e ++ fields) in
      parse_response buf (length buf) h.id
      ≡ printing (received (length buf) ∷ header_lines (print_header h) ∷ blank ∷ []) faults
parse_response_truncated h q ls e fields more vh count vq labels ending short =
    rw
      (
        enter_lem h _ (length buf) h.id vh (omega arith),
        eq→== h.id h.id refl,
        parse_body_lem h q (name_bytes ls e ++ fields) (length buf) vq (omega (arith, size₁)),
      )
      (ap (λ t. printing (received (length buf) ∷ header_lines (print_header h) ∷ blank ∷ []) t)
        (ap (λ n. answers n 0 (question_end h q ++ tail) (length buf) (length (question_end h q)))
            count
          ∙ answers_truncated more 0 (question_end h q) ls e fields (length buf) labels ending short
              (omega (arith, size₁, size₂, length-question_end h q))))
  where
    tail : List ℕ
    tail = name_bytes ls e ++ fields

    buf : List ℕ
    buf = response_bytes h q tail

    size₁ :
        length (
          name_bytes q.labels q.name_end ++ (htons_bytes q.qtype ++ (htons_bytes q.qclass ++ tail)))
        ≡ length (name_bytes q.labels q.name_end) + (4 + length tail)
    size₁ = omega (
      arith,
      length-append (name_bytes q.labels q.name_end)
          (htons_bytes q.qtype ++ (htons_bytes q.qclass ++ tail)),
    )

    size₂ : length tail ≡ length (name_bytes ls e) + length fields
    size₂ = length-append (name_bytes ls e) fields
