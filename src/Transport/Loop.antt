-- ===== src/Transport/Loop.antt =====
-- `read_loop` of crates/lspgraph-core/src/transport/mod.rs over the chunks that the reader gives.
use lspgraph.Base.{
  ℕ, zero, suc, Bool, true, false, Option, none, some, List, [], ◌∷◌, Bytes, length, if◌then◌else◌,
}
use lspgraph.Json.{Value}
use lspgraph.Codec.{Decoder, next_message, push}
use lspgraph.Codec
use lspgraph.Transport.{Connection, dispatch, reader_gone}

-- Whether the reader goes on, has left its loop, or has died in it.
pub data ReadEnd : Type 0 where
  reads ended panicked : ReadEnd

abbrev pub still_reads : ReadEnd → Bool
still_reads reads = true
still_reads ended = false
still_reads panicked = false

module _ (to_vec : Value → Bytes) (from_slice : Bytes → Option Value) where
  -- A body that is no JSON is skipped.
  abbrev pub handle_value : Connection → Option Value → Connection
  handle_value c none = c
  handle_value c (some msg) = dispatch to_vec c msg

  unfoldable pub handle : Connection → Bytes → Connection
  unfolding dispatch
  handle c body = handle_value c (from_slice body)

  -- The inner loop, on fuel, and what it leaves of the outer one.
  unfoldable pub drain : ℕ → Connection → Decoder → Connection × Decoder × ReadEnd
  unfolding handle next_message
  drain zero c d = (c, d, reads)
  drain (suc n) c d =
      let (d', outcome) = next_message d in
      elim outcome [
        | Codec.Outcome.ok none ↦ (c, d', reads)
        | Codec.Outcome.ok (some body) ↦ drain n (handle c body) d'
        | Codec.Outcome.err e ↦ (c, d', ended)
        | Codec.Outcome.panics ↦ (c, d', panicked)
      ]

  -- The outer loop over the chunks of a while, with what it comes to behind them. An empty chunk is
  -- the end of the input; a message takes at least a byte, so the fuel is enough.
  unfoldable pub read_on : Connection → Decoder → List Bytes → Connection × Decoder × ReadEnd
  unfolding drain push
  read_on c d [] = (c, d, reads)
  read_on c d ([] ∷ chunks) = (c, d, ended)
  read_on c d ((b ∷ chunk) ∷ chunks) =
      let pushed = push d (b ∷ chunk) in
      let (c', d', end) = drain (suc (length pushed.buf)) c pushed in
      let rest = read_on c' d' chunks in if still_reads end then rest else (c', d', end)

  -- All chunks that ever come.
  unfoldable pub read_chunks : Connection → Decoder → List Bytes → Connection
  unfolding read_on
  read_chunks c d chunks = (read_on c d chunks).0

  -- What the thread does behind the loop, which a panic keeps it from.
  abbrev pub leave : Connection × Decoder × ReadEnd → Connection
  leave (c, d, reads) = reader_gone c
  leave (c, d, ended) = reader_gone c
  leave (c, d, panicked) = c

  -- The reader's thread.
  unfoldable pub read_loop : Connection → List Bytes → Connection
  unfolding read_on
  read_loop c chunks = leave (read_on c Codec.new chunks)
