-- ===== src/Codec/Framing.antt =====
-- Encoding and decoding: whole frames, frames in pieces, and streams of frames.
use lspgraph.Base.{
  ℕ, ◌+◌, ◌-◌, ◌%◌, ◌^◌, ◌≤◌, ◌<◌, none, some, [], ◌∷◌, ◌++◌, Bytes, ◌≡◌, ◌≢◌, refl, sym, ◌∙◌, ap,
  arith, take, drop, length, take-append, drop-append, length-append, append_assoc, append-nil,
  Option-cases, inl, inr,
}
use lspgraph.Base.Decimal.{format}
use lspgraph.Codec.{
  header_name, blank_line, encode, Decoder, find_subslice, read_header, length_found, ok, take_body,
  next_message,
}
use lspgraph.Codec.Search.{find-no_return, find_bounds, find-append, take-append-le}
use lspgraph.Codec.Header.{header-no_return, read_header-format}

-- The header block that `encode` writes in front of the blank line.
abbrev pub header : Bytes → Bytes
header p = header_name ++ format (length p)

-- A frame that fits the address space of a 64-bit target.
abbrev pub Fits : Bytes → Type 0
Fits p = length (encode p) < 2 ^ 64

pub length-encode : (p : Bytes) → length (encode p) ≡ length (header p) + 4 + length p
unfolding encode
length-encode p = omega (arith, length-append (header p) (blank_line ++ p))

-- The frame in front of other bytes.
encode-append : (p rest : Bytes) → encode p ++ rest ≡ header p ++ (blank_line ++ (p ++ rest))
unfolding encode
encode-append p rest = append_assoc (header p) (blank_line ++ p) rest

pub find-encode :
    (p rest : Bytes) → find_subslice blank_line (encode p ++ rest) ≡ some (length (header p))
find-encode p rest =
    rw encode-append (find-no_return (header p) (p ++ rest) (header-no_return (length p)))

read_header-header : (p : Bytes) → Fits p → read_header (header p) ≡ length_found (length p)
read_header-header p f = read_header-format (length p) (omega (arith, length-encode p))

drop_both : (h p rest : Bytes) → drop (length h + length p) (h ++ (p ++ rest)) ≡ rest
drop_both h p rest =
    let e : h ++ (p ++ rest) ≡ (h ++ p) ++ rest = sym (append_assoc h p rest) in
    rw (e, ← length-append h p) (drop-append (h ++ p) rest)

take_between :
    (h p rest : Bytes)
    → take (length h + length p - length h) (drop (length h) (h ++ (p ++ rest))) ≡ p
take_between h p rest =
    let e : length h + length p - length h ≡ length p = omega arith in
    rw (e, drop-append h (p ++ rest)) (take-append p rest)

-- The body behind a block of `i` bytes and a blank line is there whole.
take_body_whole :
    (h p rest : Bytes)
    → length h + length p < 2 ^ 64
    → take_body (record { buf = h ++ (p ++ rest) }) (length h) (length p)
      ≡ (record { buf = rest }, ok (some p))
unfolding take_body
take_body_whole h p rest f =
    let e : (length h + length p) % 2 ^ 64 ≡ length h + length p = omega arith in
    rw (e) (
      ground (
        arith,
        length-append h (p ++ rest),
        length-append p rest,
        drop_both h p rest,
        take_between h p rest,
      ))

-- A body that is not there whole is waited for.
take_body_pending :
    (d : Decoder) (body_start len : ℕ)
    → body_start + len < 2 ^ 64
    → length d.buf < body_start + len
    → take_body d body_start len ≡ (d, ok none)
unfolding take_body
take_body_pending d body_start len f short = ground arith

next_message_waits :
    (a : Bytes)
    → find_subslice blank_line a ≡ none
    → next_message (record { buf = a }) ≡ (record { buf = a }, ok none)
unfolding next_message
next_message_waits a e = ground arith

pub next_message_found :
    (d : Decoder) (i n : ℕ)
    → find_subslice blank_line d.buf ≡ some i
    → read_header (take i d.buf) ≡ length_found n
    → next_message d ≡ take_body d (i + 4) n
unfolding next_message
next_message_found d i n e1 e2 = ground arith

-- A frame of less than 2^64 bytes at the front of the buffer is taken out whole, and the bytes
-- behind it stay.
pub next_message-encode :
    (p rest : Bytes)
    → Fits p
    → next_message (record { buf = encode p ++ rest }) ≡ (record { buf = rest }, ok (some p))
next_message-encode p rest f =
    let h = header p in
    let d : Decoder = record { buf = encode p ++ rest } in
    let front : take (length h) d.buf ≡ h = rw (encode-append p rest) (take-append h _) in
    let block : d.buf ≡ (h ++ blank_line) ++ (p ++ rest) =
      encode-append p rest ∙ sym (append_assoc h blank_line (p ++ rest)) in
    let size : length (h ++ blank_line) ≡ length h + 4 = length-append h blank_line in
    next_message_found d (length h) (length p) (find-encode p rest)
      (ap read_header front ∙ read_header-header p f)
    ∙ (λ i. take_body (record { buf = block i }) (sym size i) (length p))
    ∙ take_body_whole (h ++ blank_line) p rest (omega (arith, size, length-encode p))

-- A blank line in a part of a frame is the one behind the header.
found_in_part :
    (p a b : Bytes) (i : ℕ)
    → a ++ b ≡ encode p
    → find_subslice blank_line a ≡ some i
    → (i ≡ length (header p)) × (take i a ≡ header p)
found_in_part p a b i e found =
    let h = header p in
    let whole : encode p ++ [] ≡ a ++ b = append-nil (encode p) ∙ sym e in
    let same : some (length h) ≡ some i =
      sym (find-encode p []) ∙ ap (find_subslice blank_line) whole ∙ find-append a b i found in
    let at : i ≡ length h = cc in
    let room : length h ≤ length a = omega (arith, find_bounds a i found) in
    let front : take (length h) a ≡ h =
      sym (take-append-le (length h) a b room)
      ∙ ap (take (length h)) (sym whole)
      ∙ ap (take (length h)) (encode-append p [])
      ∙ take-append h (blank_line ++ (p ++ [])) in
    (at, ap (λ k. take k a) at ∙ front)

length-sum : (a b s : Bytes) → a ++ b ≡ s → length a + length b ≡ length s
length-sum a b s e = sym (length-append a b) ∙ ap length e

length-pos : (b : Bytes) → b ≢ [] → 0 < length b
length-pos [] h = absurd (h refl)
length-pos (c ∷ b) h = omega arith

-- As long as the last part of a frame of less than 2^64 bytes is missing, the decoder waits and
-- keeps what it has.
pub next_message-prefix :
    (p a b : Bytes)
    → Fits p
    → a ++ b ≡ encode p
    → b ≢ []
    → next_message (record { buf = a }) ≡ (record { buf = a }, ok none)
next_message-prefix p a b f e more = elim (Option-cases (find_subslice blank_line a)) [
  | inl waits ↦ next_message_waits a waits
  | inr (i, found) ↦
      let (at, front) = found_in_part p a b i e found in
      let d : Decoder = record { buf = a } in
      next_message_found d i (length p) found (ap read_header front ∙ read_header-header p f)
      ∙ take_body_pending d (i + 4) (length p) (omega (arith, length-encode p))
          (omega (arith, length-encode p, length-sum a b (encode p) e, length-pos b more))
]
