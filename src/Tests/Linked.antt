-- ===== src/Tests/Linked.antt =====
-- Requests on a link, and the language server over it, at concrete inputs.
use lspgraph.Base.{
  ℕ, ◌+◌, ◌≤◌, ◌≡◌, ◌≢◌, ◌++◌, refl, arith, Option, none, some, List, [], ◌∷◌, Bytes, Text, codes,
  take, drop, All, true,
}
use lspgraph.Base.Map.{get}
use lspgraph.Error.{ok, err, content_modified}
use lspgraph.Json
use lspgraph.Json.{Value}
use lspgraph.Codec.{encode}
use lspgraph.Codec.Framing.{Fits}
use lspgraph.Transport.{WriteEnd}
use lspgraph.Transport.Answers.{first_answer}
use lspgraph.Codec
use lspgraph.Transport.Callers.{start, here}
use lspgraph.Transport.Came.{link_of}
use lspgraph.Transport.Ordered.{ReturnsIn, request-ReturnsIn}
use lspgraph.Transport.Link.{Link, connect, request}
use lspgraph.Transport.Exchange.{IsReady, Returns, AreWhole, request-frames}
use lspgraph.Server.{Child, Host, LanguageServer}
use lspgraph.Server.Calls.{request_retrying_content_modified}
use lspgraph.Server.Retry.{IsModified}
use lspgraph.Server.Linked.{link_ops, request_retrying-numbers, request_retrying-frames}

abbrev pub to_vec : Value → Bytes
to_vec v = []

abbrev pub with_id : ℕ → Text → Value → Value
with_id id key v = Value.obj (
    Json.Fields.field (codes "id") (Value.num (Json.Number.pos_int id))
      (Json.Fields.field key v Json.Fields.end))

-- The error of modified content under 1, and a result under 2.
abbrev busy : Value
busy = with_id 1 (codes "error") (
    Value.obj
      (Json.Fields.field (codes "code") (Value.num (Json.Number.neg_int 32800)) Json.Fields.end))

abbrev found : Value
found = with_id 2 (codes "result") (Value.bool true)

abbrev from_slice : Bytes → Option Value
from_slice [] = some busy
from_slice (b ∷ bs) = some found

abbrev pub body : Bytes
body = codes "{}"

body-Fits : Fits body
unfolding encode lspgraph.Base.Decimal.format
body-Fits = omega arith

empty-Fits : Fits []
unfolding encode lspgraph.Base.Decimal.format
empty-Fits = omega arith

-- A frame in two pieces.
abbrev pub pieces : Bytes → List Bytes
pieces p = take 7 (encode p) ∷ drop 7 (encode p) ∷ []

pub empty-AreWhole : AreWhole (pieces []) ([] ∷ [])
unfolding encode lspgraph.Base.Decimal.format
empty-AreWhole = ((λ p. cc, (λ p. cc, tt)), (empty-Fits, tt), refl)

pub body-AreWhole : AreWhole (pieces body) (body ∷ [])
unfolding encode lspgraph.Base.Decimal.format
body-AreWhole = ((λ p. cc, (λ p. cc, tt)), (body-Fits, tt), refl)

abbrev turns : List (List Bytes)
turns = pieces [] ∷ pieces body ∷ [] ∷ []

abbrev link : Link
link = connect [] turns

link-IsReady : IsReady link
unfolding get
link-IsReady = record {
  reading = refl;
  decoder = refl;
  fresh = λ id h. (refl, refl);
  writes = refl;
}

request-frames_example :
    Returns 1
      (pieces body ∷ [] ∷ [])
      (err (content_modified (codes "m")))
      (request to_vec from_slice link (codes "m") Value.null 5)
unfolding first_answer lspgraph.Transport.response_id lspgraph.Base.Text-discrete
    lspgraph.Transport.classify
request-frames_example =
    request-frames to_vec from_slice link (codes "m") Value.null 5 (pieces body ∷ [] ∷ [])
      (pieces []) ([] ∷ []) link-IsReady refl empty-AreWhole

-- The same link, from the start of callers and reader.
request-ReturnsIn_example :
    let r =
      request to_vec from_slice (link_of (start []) Codec.new turns) (codes "m") Value.null 5 in
    ReturnsIn to_vec (start []) 1 r.0.conn r.0.reading r.1
request-ReturnsIn_example =
    request-ReturnsIn to_vec from_slice (start []) (codes "m") 5 (start []) Codec.new turns
      Value.null here

abbrev pub wires : Child → List WriteEnd × List (List Bytes)
wires child = ([], turns)

abbrev pub host : Host
host = record {
  spawn = λ prog args root. ok (record { pid = 7; has_stdout = true; has_stdin = true });
  process_id = 1;
  read_to_string = λ path. ok [];
  path_to_uri = λ path. path;
  parse_url = λ t. some t;
  tables = record { is_alphabetic = λ c. true; is_alphanumeric = λ c. true };
  items_of = λ v. ok [];
  item_of = λ v. none;
  item_value = λ item. Value.null;
  position_value = λ p. Value.null;
  symbols_of = λ v. none;
}

abbrev pub server : LanguageServer Link
server = record {
  name = codes "rust";
  root = codes "/repo";
  conn = link;
  child = some 7;
  supports_workspace_symbol = true;
}

request_retrying-numbers_example :
    let r =
      request_retrying_content_modified
        (link_ops to_vec from_slice wires)
        host
        server
        (codes "m")
        Value.null in
    (1 ≤ r.0.conn.conn.next_id)
    × (r.0.conn.conn.next_id ≤ 3)
    × (IsModified r.1 → r.0.conn.conn.next_id ≡ 3)
request_retrying-numbers_example =
    request_retrying-numbers to_vec from_slice wires host server (codes "m") Value.null

empty_turn : AreWhole [] []
empty_turn = (tt, tt, refl)

request_retrying-frames_example :
    (request_retrying_content_modified
      (link_ops to_vec from_slice wires)
      host
      server
      (codes "m")
      Value.null).1
    ≡ ok (Value.bool true)
unfolding first_answer lspgraph.Transport.response_id lspgraph.Base.Text-discrete
    lspgraph.Transport.classify
request_retrying-frames_example =
    request_retrying-frames to_vec from_slice wires host server (codes "m") Value.null (pieces [])
      (pieces body) [] ([] ∷ []) (body ∷ []) [] [] link-IsReady refl empty-AreWhole body-AreWhole
      empty_turn
