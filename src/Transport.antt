-- ===== src/Transport.antt =====
-- crates/lspgraph-core/src/transport/mod.rs: the connection. The reader's thread and the callers
-- share a state; a step of either is a function on it. A sender is the id that it was registered
-- under, and what is sent on it is a mailbox. `next_id` stays below 2^63. Bytes reach `read_loop` in
-- chunks; the JSON codec is a parameter, of which the writing of a value does not fail. How each
-- write to the server ends is listed in the state. Transport/Callers has the interleavings of callers
-- and reader, and Transport/Link the connection of one caller.
pub mod Answers
pub mod Callers
pub mod Listed
pub mod Left
pub mod Sound
pub mod Stepped
pub mod Awaited
pub mod Dispatch
pub mod Loop
pub mod Stream
pub mod Link
pub mod Numbers
pub mod Heard
pub mod Exchange
pub mod Came
pub mod Ordered
use lspgraph.Base.{
  ℕ, zero, suc, ◌+◌, ◌==◌, Bool, true, false, ◌||◌, not, Option, none, some, List, [], ◌∷◌, ◌++◌,
  Text, Bytes, codes, ℕ_discrete, if◌then◌else◌, length, take,
}
use lspgraph.Base.Map.{get, insert, remove}
use lspgraph.Error
use lspgraph.Error.{Error, Result, ok, err, Duration}
use lspgraph.Json
use lspgraph.Json.{Value, Fields, Signed, pos, negsuc, is_null, as_i64, as_str, ◌>>=◌, unwrap_or}
use lspgraph.Codec.{Decoder, encode, next_message, push}
use lspgraph.Codec

pub record Notification : Type 0 where
  pub method : Text
  pub params : Value

-- How a write to the server and its flush end: all is taken, or there is an error behind some of the
-- bytes.
pub data WriteEnd : Type 0 where
  taken : WriteEnd
  failed : ℕ → Text → WriteEnd

-- `writes` are the ends of the writes to come; those past the list are taken.
pub record Connection : Type 0 where
  pub next_id : ℕ
  pub pending : List (ℕ × Unit {0})
  pub mailboxes : List (ℕ × Value)
  pub written : Bytes
  pub writes : List WriteEnd
  pub notifications : List Notification

abbrev pub new : List WriteEnd → Connection
new writes = record {
  next_id = 0;
  pending = [];
  mailboxes = [];
  written = [];
  writes = writes;
  notifications = [];
}

-- `write_all` and `flush` of the framed bytes, by the end of this write.
unfoldable pub write_all : Connection → Bytes → List WriteEnd → Connection × Result {0} Unit
write_all c bytes [] = (record c { written = c.written ++ bytes }, ok tt)
write_all c bytes (taken ∷ ws) = (record c { written = c.written ++ bytes; writes = ws }, ok tt)
write_all c bytes (failed n e ∷ ws) =
    (record c { written = c.written ++ take n bytes; writes = ws }, err (Error.io e))

-- The number of a request, and its registration.
abbrev pub draw_id : Connection → Connection × ℕ
draw_id c = (record c { next_id = c.next_id + 1 }, c.next_id + 1)

unfoldable pub register : Connection → ℕ → Connection
unfolding insert ℕ_discrete
register c id = record c { pending = insert ℕ_discrete id tt c.pending }

abbrev pub is_some : Option Value → Bool
is_some none = false
is_some (some v) = true

-- `msg.get("id").filter(|v| !v.is_null())`.
abbrev pub not_null : Option Value → Option Value
not_null none = none
not_null (some v) = if is_null v then none else some v

unfoldable pub message_id : Value → Option Value
unfolding Json.get
message_id msg = not_null (Json.get msg (codes "id"))

unfoldable pub is_response : Value → Bool
unfolding Json.get
is_response msg = is_some (Json.get msg (codes "result")) || is_some (Json.get msg (codes "error"))

-- The answer to a request of the server, with the id as it came.
abbrev pub null_reply : Value → Value
null_reply id = Value.obj (
    Fields.field (codes "jsonrpc") (Value.str (codes "2.0"))
      (Fields.field (codes "id") id (Fields.field (codes "result") Value.null Fields.end)))

-- The id of a response: only integers are correlated.
unfoldable pub response_id : Value → Option Signed
unfolding message_id is_response as_i64
response_id msg = if is_response msg then message_id msg >>= as_i64 else none

-- A response is delivered to whoever waits under its id, and forgotten if nobody does.
unfoldable pub deliver : Connection → Signed → Value → Connection
unfolding get ℕ_discrete insert remove
deliver c (negsuc n) msg = c
deliver c (pos n) msg = elim (get ℕ_discrete n c.pending) [
  | none ↦ c
  | some _ ↦ record c {
    pending = remove ℕ_discrete n c.pending;
    mailboxes = insert ℕ_discrete n msg c.mailboxes;
  }
]

-- The text of a request.
abbrev pub request_message : ℕ → Text → Value → Value
request_message id method params = Value.obj (
    Fields.field (codes "jsonrpc") (Value.str (codes "2.0")) (
      Fields.field (codes "id") (Value.num (Json.Number.pos_int id)) (
        Fields.field (codes "method") (Value.str method)
          (Fields.field (codes "params") params Fields.end))))

module _ (to_vec : Value → Bytes) where
  unfoldable pub write : Connection → Value → Connection × Result {0} Unit
  unfolding write_all encode
  write c msg = write_all c (encode (to_vec msg)) c.writes

  -- A message with a method that is no response: a request of the server is answered, whether the
  -- write succeeds or not, and a notification is passed on.
  unfoldable pub serve_method : Connection → Option Value → Text → Value → Connection
  unfolding write
  serve_method c (some id) method msg = (write c (null_reply id)).0
  serve_method c none method msg = record c {
    notifications =
        c.notifications
        ++ record { method = method; params = unwrap_or Value.null (Json.get msg (codes "params")) }
          ∷ [];
  }

  -- What `read_loop` does with one message.
  unfoldable pub dispatch : Connection → Value → Connection
  unfolding response_id deliver serve_method message_id Json.get as_str
  dispatch c msg = elim (response_id msg) [
    | some id ↦ deliver c id msg
    | none ↦ elim (Json.get msg (codes "method") >>= as_str) [
      | some method ↦ serve_method c (message_id msg) method msg
      | none ↦ c
    ]
  ]

  -- The first half of `request`: the id is registered before the message is written, and stays so
  -- where the write fails.
  unfoldable pub send_request : Connection → Text → Value → Connection × ℕ × Result {0} Unit
  unfolding register write
  send_request c method params =
      let (drawn, id) = draw_id c in
      let (c', sent) = write (register drawn id) (request_message id method params) in
      (c', id, sent)

  -- `notify`.
  unfoldable pub notify : Connection → Text → Value → Connection × Result {0} Unit
  unfolding write
  notify c method params = write c (
      Value.obj (
        Fields.field (codes "jsonrpc") (Value.str (codes "2.0")) (
          Fields.field (codes "method") (Value.str method)
            (Fields.field (codes "params") params Fields.end))))

-- The code -32801.
abbrev pub is_content_modified : Option Signed → Bool
is_content_modified (some (negsuc n)) = n == 32800
is_content_modified o = false

-- What `request` makes of a response.
unfoldable pub classify : Text → Value → Result Value
unfolding Json.get as_i64 as_str
classify method m = elim (Json.get m (codes "error")) [
  | none ↦ ok (unwrap_or Value.null (Json.get m (codes "result")))
  | some e ↦
      if is_content_modified (Json.get e (codes "code") >>= as_i64)
      then err (Error.content_modified method)
      else err (
          Error.protocol (
            method
            ++ (codes ": "
                ++ unwrap_or (codes "unknown") (Json.get e (codes "message") >>= as_str))))
]

-- How the wait of `request` ends: with what is in the mailbox, by the time running out, or with the
-- reader gone.
pub data Wait : Type 0 where
  arrived timed_out disconnected : Wait

unfoldable pub receive : Connection → ℕ → Text → Duration → Wait → Connection × Result Value
unfolding remove get ℕ_discrete classify
receive c id method timeout arrived = elim (get ℕ_discrete id c.mailboxes) [
  | none ↦ (c, err Error.server_exited)
  | some m ↦ (c, classify method m)
]
receive c id method timeout timed_out =
    (record c { pending = remove ℕ_discrete id c.pending }, err (Error.timeout method timeout))
receive c id method timeout disconnected = (c, err Error.server_exited)

-- The reader behind its loop: everyone who waits is disconnected.
abbrev pub reader_gone : Connection → Connection
reader_gone c = record c { pending = [] }
