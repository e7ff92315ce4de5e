-- ===== src/Tests/Wire.antt =====
-- Framing and the connection at concrete inputs.
use lspgraph.Base.{
  ℕ, ◌+◌, ◌*◌, ◌≤◌, ◌<◌, ◌^◌, ◌↔◌, ◌≡◌, ◌≢◌, ◌++◌, ◌/◌, subst, ap, refl, arith, Option, none, some,
  List, [], ◌∷◌, Bytes, Text, codes, length, All, min, take, drop, Bool, true, false, if◌then◌else◌,
  ◌==◌,
}
use lspgraph.Json.{Value, pos}
use lspgraph.Json
use lspgraph.Codec.{
  encode, Decoder, next_message, find_subslice, blank_line, read_header, length_found,
}
use lspgraph.Codec
use lspgraph.Codec.Framing.{Fits, next_message-encode}
use lspgraph.Codec.Progress.{next_message-panics_iff, next_message-Consumes, Consumes}
use lspgraph.Transport.{
  Connection, response_id, dispatch, send_request, receive, classify, arrived, timed_out,
}
use lspgraph.Transport
use lspgraph.Transport.Loop.{read_chunks}
use lspgraph.Transport.Stream.{joined, frames, handle_all, read_chunks-frames}

abbrev body : Bytes
body = codes "{\"id\":1}"

abbrev stream : Bytes
stream = encode body ++ encode []

body-Fits : Fits body
unfolding encode lspgraph.Base.Decimal.format
body-Fits = omega arith

empty-Fits : Fits []
unfolding encode lspgraph.Base.Decimal.format
empty-Fits = omega arith

next_message-encode_example :
    next_message (record { buf = encode body ++ codes "Con" })
    ≡ (record { buf = codes "Con" }, Codec.Outcome.ok (some body))
next_message-encode_example = next_message-encode body (codes "Con") body-Fits

abbrev front : Bytes
front = take 10 (encode body)

abbrev behind : Bytes
behind = drop 10 (encode body)

two_parts : front ++ behind ≡ encode body
unfolding encode lspgraph.Base.Decimal.format
two_parts = refl

behind-ne-nil : behind ≢ []
unfolding encode lspgraph.Base.Decimal.format
behind-ne-nil p = cc

next_message-Consumes_example :
    Consumes (record { buf = stream }) (next_message (record { buf = stream }))
next_message-Consumes_example = next_message-Consumes (record { buf = stream })

-- A header that announces 2^64 - 1 bytes.
abbrev huge : Bytes
huge = codes "Content-Length: 18446744073709551615\r\n\r\n"

huge_length : read_header (take 36 huge) ≡ length_found 18446744073709551615
unfolding read_header lspgraph.Base.Utf8.from_utf8 Codec.read_lines lspgraph.Base.Str.split_crlf
    Codec.read_line lspgraph.Base.Str.split_once lspgraph.Base.Str.eq_ignore_ascii_case
    lspgraph.Base.Str.trim lspgraph.Base.Decimal.parse_usize
huge_length = refl

huge_header : find_subslice blank_line huge ≡ some 36
unfolding find_subslice lspgraph.Base.Text-discrete
huge_header = refl

next_message-panics_iff_example :
    ((next_message (record { buf = huge })).1 ≡ Codec.Outcome.panics)
    ↔ (2 ^ 64 ≤ 36 + 4 + 18446744073709551615)
next_message-panics_iff_example =
    next_message-panics_iff (record { buf = huge }) 36 18446744073709551615 (omega arith)
      huge_header huge_length

-- A codec of values that writes nothing, and reads every body as the response to the first request.
abbrev to_vec : Value → Bytes
to_vec v = []

abbrev response : Value
response = Value.obj (
    Json.Fields.field (codes "id") (Value.num (Json.Number.pos_int 1))
      (Json.Fields.field (codes "result") Value.null Json.Fields.end))

abbrev from_slice : Bytes → Option Value
from_slice b = some response

abbrev cut : List Bytes
cut = take 7 stream ∷ drop 7 stream ∷ []

cut-full : All (λ x. x ≢ []) cut
unfolding encode lspgraph.Base.Decimal.format
cut-full = (λ p. cc, (λ p. cc, tt))

cut-joined : joined cut ≡ frames (body ∷ [] ∷ [])
unfolding encode lspgraph.Base.Decimal.format
cut-joined = refl

read_chunks-frames_example :
    read_chunks to_vec from_slice (Transport.new []) Codec.new cut
    ≡ handle_all to_vec from_slice (Transport.new []) (body ∷ [] ∷ [])
read_chunks-frames_example =
    read_chunks-frames to_vec from_slice (Transport.new []) cut (body ∷ [] ∷ []) cut-full
      (body-Fits, (empty-Fits, tt)) cut-joined

response_answers : response_id response ≡ some (pos 1)
unfolding response_id lspgraph.Base.Text-discrete Json.get
response_answers = refl
