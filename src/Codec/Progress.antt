-- ===== src/Codec/Progress.antt =====
-- What every call of `next_message` does to the buffer, and when it panics.
use lspgraph.Base.{
  ℕ, ◌+◌, ◌-◌, ◌%◌, ◌^◌, ◌≤◌, ◌<◌, none, some, Option, List, [], ◌∷◌, Text, Bytes, ◌≡◌, refl, sym,
  ◌∙◌, ap, arith, take, drop, length, length-take, length-drop, Bool-cases, ltb, Option-cases, inl,
  inr, ◌↔◌,
}
use lspgraph.Base.Decimal.{parse_usize_bounds, usize_max}
use lspgraph.Base.Str.{split_once, split_crlf, trim}
use lspgraph.Base.Utf8.{from_utf8}
use lspgraph.Codec.{
  blank_line, Decoder, find_subslice, read_line, read_lines, read_header, Lines, length_found,
  failed, ok, err, panics, Outcome, take_body, next_message,
}
use lspgraph.Codec.Search.{find_bounds}
use lspgraph.Codec.Framing.{next_message_found}

-- The next state drops `k` bytes, at least a blank line's, from the front.
abbrev pub Drops : Decoder → Decoder → ℕ → Type 0
Drops d d' k = (4 ≤ k) × (k ≤ length d.buf) × (d'.buf ≡ drop k d.buf)

abbrev pub Consumes : Decoder → Decoder × Outcome → Type 0
Consumes d (d', ok none) = d' ≡ d
Consumes d (d', panics) = d' ≡ d
Consumes d (d', err e) = (k : ℕ) × Drops d d' k
Consumes d (d', ok (some body)) =
    (k : ℕ) × Drops d d' k × (body ≡ take (length body) (drop (k - length body) d.buf))

slice_from_end :
    (buf : Bytes) (from to : ℕ)
    → from ≤ to
    → to ≤ length buf
    → let body = take (to - from) (drop from buf) in
      body ≡ take (length body) (drop (to - length body) buf)
slice_from_end buf from to le room =
    let body = take (to - from) (drop from buf) in
    let size : length body ≡ to - from =
      omega (arith, length-take (to - from) (drop from buf), length-drop from buf) in
    let start : to - length body ≡ from = omega arith in
    sym (λ i. take (size i) (drop (start i) buf))

take_body-Consumes :
    (d : Decoder) (i len : ℕ) → i + 4 ≤ length d.buf → Consumes d (take_body d (i + 4) len)
unfolding take_body
take_body-Consumes d i len room =
    let to = (i + 4 + len) % 2 ^ 64 in
    elim (Bool-cases (ltb (length d.buf) to)) [
      | inl short ↦ rw short refl
      | inr there ↦ elim (Bool-cases (ltb to (i + 4))) [
        | inl wrapped ↦ rw (there, wrapped) refl
        | inr ahead ↦
            rw (there, ahead)
              (
                to,
                (ground arith, ground arith, refl),
                slice_from_end d.buf (i + 4) to (ground arith) (ground arith),
              )
      ]
    ]

-- A call that waits or panics leaves the buffer alone, and any other takes at least four bytes from
-- its front and no others; a body is the last of the bytes that are taken.
pub next_message-Consumes : (d : Decoder) → Consumes d (next_message d)
unfolding next_message
next_message-Consumes d = elim (Option-cases (find_subslice blank_line d.buf)) [
  | inl waits ↦ rw (waits, next_message) refl
  | inr (i, found) ↦
      rw (found, next_message) (behind i (find_bounds d.buf i found) (read_header (take i d.buf)))
]
  where
    behind :
        (i : ℕ)
        → i + 4 ≤ length d.buf
        → (l : Lines)
        → Consumes d (elim l [
          | failed e ↦ (record { buf = drop (i + 4) d.buf }, err e)
          | length_found len ↦ take_body d (i + 4) len
        ])
    behind i room (failed e) = (i + 4, (omega arith, omega arith, refl))
    behind i room (length_found len) = take_body-Consumes d i len room

read_line_bounds :
    (line : Text) (len : Option ℕ) (n : ℕ)
    → (len ≡ some n → n ≤ usize_max)
    → read_line line len ≡ some (some n)
    → n ≤ usize_max
unfolding read_line
read_line_bounds line len n h e = elim (Option-cases (split_once b':' line)) [
  | inl no_colon ↦ ground (arith, h)
  | inr ((k, v), colon) ↦ ground (arith, h, parse_usize_bounds (trim v) n)
]

read_lines_bounds :
    (lines : List Text) (len : Option ℕ) (n : ℕ)
    → ((m : ℕ) → len ≡ some m → m ≤ usize_max)
    → read_lines lines len ≡ length_found n
    → n ≤ usize_max
unfolding read_lines
read_lines_bounds [] none n h e = absurd cc
read_lines_bounds [] (some m) n h e = ground (arith, h m)
read_lines_bounds (line ∷ lines) len n h e = elim (Option-cases (read_line line len)) [
  | inl bad ↦ absurd (ground arith)
  | inr (next, good) ↦
      read_lines_bounds lines next n (λ m p. read_line_bounds line len m (h m) (good ∙ ap some p))
        (ground arith)
]

-- A length that a header announces is a `usize`.
pub read_header_bounds : (h : Bytes) (n : ℕ) → read_header h ≡ length_found n → n ≤ usize_max
unfolding read_header
read_header_bounds h n e = elim (Option-cases (from_utf8 h)) [
  | inl bad ↦ absurd (ground arith)
  | inr (text, good) ↦ read_lines_bounds (split_crlf text) none n (λ m p. absurd cc) (ground arith)
]

take_body-panics_iff :
    (d : Decoder) (body_start len : ℕ)
    → length d.buf < 2 ^ 64
    → body_start ≤ length d.buf
    → len ≤ usize_max
    → ((take_body d body_start len).1 ≡ panics) ↔ (2 ^ 64 ≤ body_start + len)
unfolding take_body
take_body-panics_iff d body_start len fits room small = (λ p. ground arith, λ q. ground arith)

-- With a whole header in a buffer of less than 2^64 bytes the decoder panics exactly when the
-- announced length overflows the position behind the body.
pub next_message-panics_iff :
    (d : Decoder) (i n : ℕ)
    → length d.buf < 2 ^ 64
    → find_subslice blank_line d.buf ≡ some i
    → read_header (take i d.buf) ≡ length_found n
    → ((next_message d).1 ≡ panics) ↔ (2 ^ 64 ≤ i + 4 + n)
next_message-panics_iff d i n fits found announced = rw (next_message_found d i n found announced) (
    take_body-panics_iff d (i + 4) n fits (find_bounds d.buf i found)
      (read_header_bounds (take i d.buf) n announced))
