-- ===== src/Codec.antt =====
-- crates/lspgraph-core/src/transport/codec.rs: Content-Length framing.
pub mod Search
pub mod Header
pub mod Framing
pub mod Progress
use lspgraph.Base.{
  ℕ, suc, ◌+◌, ◌-◌, ◌%◌, ◌^◌, Bool, true, false, Option, none, some, List, [], ◌∷◌, ◌++◌, Text,
  Bytes, Text-discrete, ℕ_discrete, codes, holds, if◌then◌else◌, ltb, is_empty, take, drop, length,
}
use lspgraph.Base.Decimal.{format, parse_usize}
use lspgraph.Base.Utf8.{from_utf8}
use lspgraph.Base.Str.{trim, eq_ignore_ascii_case, split_once, split_crlf}
use mathlib.Core.Option

abbrev pub header_name : Text
header_name = codes "Content-Length: "

-- "\r\n\r\n".
abbrev pub blank_line : Bytes
blank_line = 13 ∷ 10 ∷ 13 ∷ 10 ∷ []

unfoldable pub encode : Bytes → Bytes
encode payload = (header_name ++ format (length payload)) ++ (blank_line ++ payload)

pub record Decoder : Type 0 where
  pub buf : Bytes

abbrev pub new : Decoder
new = record { buf = [] }

unfoldable pub push : Decoder → Bytes → Decoder
push d bytes = record { buf = d.buf ++ bytes }

-- The position of the first window that is the needle, which is not empty.
unfoldable pub find_subslice : Bytes → Bytes → Option ℕ
find_subslice needle [] = none
find_subslice needle (b ∷ s) =
    if holds (Text-discrete (take (length needle) (b ∷ s)) needle)
    then some 0
    else Option.map suc (find_subslice needle s)

-- What the `Error::Protocol` of a bad frame is about.
pub data FrameError : Type 0 where
  invalid_utf8 : Bytes → FrameError
  line_without_colon : Text → FrameError
  no_content_length : FrameError

-- `Result<Option<Vec<u8>>>`, or a panic of the slice.
pub data Outcome : Type 0 where
  ok : Option Bytes → Outcome
  err : FrameError → Outcome
  panics : Outcome

pub data Lines : Type 0 where
  length_found : ℕ → Lines
  failed : FrameError → Lines

-- One header line: the length read so far behind it, or nothing for a line without a colon. A
-- Content-Length line replaces an earlier length, also by nothing where it does not parse.
unfoldable pub read_line : Text → Option ℕ → Option (Option ℕ)
read_line line len = if is_empty line then some len else (elim (split_once b':' line) [
  | none ↦ none
  | some (k, v) ↦
      some (
        if eq_ignore_ascii_case (trim k) (codes "content-length")
        then parse_usize (trim v)
        else len)
])

-- The loop over the header lines, and the checks behind it.
unfoldable pub read_lines : List Text → Option ℕ → Lines
read_lines [] none = failed no_content_length
read_lines [] (some len) = length_found len
read_lines (line ∷ lines) len = elim (read_line line len) [
  | none ↦ failed (line_without_colon line)
  | some next ↦ read_lines lines next
]

unfoldable pub read_header : Bytes → Lines
read_header header = elim (from_utf8 header) [
  | none ↦ failed (invalid_utf8 header)
  | some text ↦ read_lines (split_crlf text) none
]

-- The end of the body in `usize` arithmetic, which wraps in a release build (a debug build panics
-- where it would wrap), and the slice of the body, which panics if it ends before it starts.
unfoldable pub take_body : Decoder → ℕ → ℕ → Decoder × Outcome
take_body d body_start len =
    let body_end = (body_start + len) % 2 ^ 64 in
    if ltb (length d.buf) body_end
    then (d, ok none)
    else if ltb body_end body_start
    then (d, panics)
    else (
      record { buf = drop body_end d.buf },
      ok (some (take (body_end - body_start) (drop body_start d.buf))),
    )

unfoldable pub next_message : Decoder → Decoder × Outcome
next_message d = elim (find_subslice blank_line d.buf) [
  | none ↦ (d, ok none)
  | some header_end ↦ elim (read_header (take header_end d.buf)) [
    | failed e ↦ (record { buf = drop (header_end + 4) d.buf }, err e)
    | length_found len ↦ take_body d (header_end + 4) len
  ]
]
