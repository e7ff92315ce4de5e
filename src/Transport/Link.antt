-- ===== src/Transport/Link.antt =====
-- `Connection::request` of crates/lspgraph-core/src/transport/mod.rs as one thread calls it, the
-- reader's turns included: a turn is the chunks that the reader reads while a request waits, where an
-- empty chunk is the end of the input. What comes at any other time counts to the next turn. A request
-- whose time runs out was given its turn first.
use lspgraph.Base.{
  ℕ, Bool, true, false, Option, none, some, List, [], ◌∷◌, Bytes, Text, if◌then◌else◌,
}
use lspgraph.Error.{Result, ok, err, Duration}
use lspgraph.Json.{Value}
use lspgraph.Codec.{Decoder}
use lspgraph.Codec
use lspgraph.Transport.{
  Connection, Wait, WriteEnd, new, send_request, receive, notify, reader_gone, arrived, timed_out,
  disconnected,
}
use lspgraph.Transport.Callers.{entry_at, mail_at}
use lspgraph.Transport.Loop.{ReadEnd, reads, ended, panicked, read_on}

-- The connection with the reader's side, and the turns to come; nothing comes past the list.
pub record Link : Type 0 where
  pub conn : Connection
  pub decoder : Decoder
  pub reading : Bool
  pub turns : List (List Bytes)

abbrev pub connect : List WriteEnd → List (List Bytes) → Link
connect writes turns = record {
  conn = new writes;
  decoder = Codec.new;
  reading = true;
  turns = turns;
}

-- What `recv_timeout` finds when the turn is over.
abbrev pub found_by : Option Value → Option (Unit {0}) → Wait
found_by (some m) entry = arrived
found_by none (some _) = timed_out
found_by none none = disconnected

module _ (to_vec : Value → Bytes) (from_slice : Bytes → Option Value) where
  -- The reader's thread behind a turn; where its loop ends, everyone who waits is
  -- disconnected, and where it panics nobody is.
  abbrev pub after_turn : Link → Connection × Decoder × ReadEnd → Link
  after_turn l (c, d, reads) = record l { conn = c; decoder = d; reading = true }
  after_turn l (c, d, ended) = record l { conn = reader_gone c; decoder = d; reading = false }
  after_turn l (c, d, panicked) = record l { conn = c; decoder = d; reading = false }

  unfoldable pub read_turn : Link → List Bytes → Link
  unfolding read_on
  read_turn l chunks =
      if l.reading then after_turn l (read_on to_vec from_slice l.conn l.decoder chunks) else l

  unfoldable pub take_turn : Link → List (List Bytes) → Link
  unfolding read_turn
  take_turn l [] = l
  take_turn l (chunks ∷ turns) = read_turn (record l { turns = turns }) chunks

  unfoldable pub await : Link → ℕ → Text → Duration → Link × Result Value
  unfolding receive
  await l id method timeout =
      let wait = found_by (mail_at id l.conn) (entry_at id l.conn) in
      let (c, result) = receive l.conn id method timeout wait in (record l { conn = c }, result)

  unfoldable pub after_send :
      Link → Text → Duration → Connection × ℕ × Result {0} Unit → Link × Result Value
  unfolding await take_turn
  after_send l method timeout (c, id, err e) = (record l { conn = c }, err e)
  after_send l method timeout (c, id, ok _) =
      await (take_turn (record l { conn = c }) l.turns) id method timeout

  unfoldable pub request : Link → Text → Value → Duration → Link × Result Value
  unfolding after_send send_request
  request l method params timeout =
      after_send l method timeout (send_request to_vec l.conn method params)

  unfoldable pub tell : Link → Text → Value → Link × Result {0} Unit
  unfolding notify
  tell l method params =
      let (c, result) = notify to_vec l.conn method params in (record l { conn = c }, result)
