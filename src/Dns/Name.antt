-- ===== src/Dns/Name.antt =====
-- `encode_name`: a domain such as www.example.com as length-prefixed labels.
-- The domain is the list of its bytes up to, and without, the terminating NUL.
pub mod Spec
pub mod Loop
pub mod Laws
pub mod Full
pub mod Overrun
use swe_daily_challenge.Base.{
  ℕ, zero, suc, ◌+◌, ◌%◌, ◌^◌, Bool, ◌||◌, Option, none, some, List, [], ◌∷◌, ltb, ◌==◌,
  if◌then◌else◌, length, get_elem?, set, replicate, drop, ◌++◌,
}
use swe_daily_challenge.Dns.Types.{
  Outcome, ok, refused, fault, ◌>>=◌, access, u8, u16, max_label_total, max_label_segment,
}

-- The locals of the loop, with the buffer that the caller passes.
pub record Enc : Type 0 where
  pub seg_i : ℕ
  pub buf_i : ℕ
  pub seg : List ℕ
  pub buf : List ℕ

-- `xs[i] = v`
unfoldable pub store : List ℕ → ℕ → ℕ → Outcome (List ℕ)
store xs i v = if ltb i (length xs) then ok (set xs i v) else fault

-- `buf[buf_i++] = v`
unfoldable pub emit : ℕ → Enc → Outcome Enc
unfolding store
emit v e = store e.buf e.buf_i v >>= λ buf. ok (record e { buf = buf; buf_i = u16 (e.buf_i + 1) })

-- `for (uint8_t i = 0; i < seg_i; i++)`, with `left` rounds to go.
unfoldable pub copy_seg : (left i : ℕ) → Enc → Outcome Enc
unfolding emit
copy_seg zero i e = ok e
copy_seg (suc left) i e =
    access (get_elem? e.seg i) >>= λ c. emit c e >>= λ e'. copy_seg left (u8 (i + 1)) e'

-- `memset(xs, v, n)`, within the array.
unfoldable pub memset : List ℕ → ℕ → ℕ → List ℕ
memset xs v n = replicate n v ++ drop n xs

-- What happens at a '.' and at the end of the domain.
unfoldable pub flush : Enc → Outcome Enc
unfolding emit copy_seg memset
flush e =
    if ltb max_label_segment e.seg_i
    then refused
    else (emit e.seg_i e >>= λ e₁.
        copy_seg e.seg_i 0 e₁ >>= λ e₂. ok (record e₂ { seg = memset e₂.seg 0 63; seg_i = 0 }))

-- `seg[seg_i] = domain[domain_i]; seg_i++`
unfoldable pub put_char : ℕ → Enc → Outcome Enc
unfolding store
put_char c e =
    store e.seg e.seg_i c >>= λ seg. ok (record e { seg = seg; seg_i = u8 (e.seg_i + 1) })

unfoldable pub is_separator : ℕ → Bool
is_separator c = c == b'.' || c == 0

-- The loop over `domain_i`; its last round is at the NUL.
unfoldable pub encode_loop : List ℕ → Enc → Outcome Enc
unfolding flush put_char is_separator
encode_loop [] e = flush e
encode_loop (c ∷ cs) e = (if is_separator c then flush e else put_char c e) >>= encode_loop cs

-- `seg` is the uninitialised array of the C function. The result is the number of bytes written
-- and the buffer.
unfoldable pub encode_name : List ℕ → (seg buf : List ℕ) → Outcome (ℕ × List ℕ)
unfolding encode_loop emit
encode_name domain seg buf =
    encode_loop domain (record { seg_i = 0; buf_i = 0; seg = seg; buf = buf }) >>= λ e.
    emit 0 e >>= λ e'. if ltb max_label_total e'.buf_i then refused else ok (e'.buf_i, e'.buf)
