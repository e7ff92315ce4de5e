-- ===== src/Tests/Program.antt =====
-- The session, the readiness and the start of the program at concrete inputs.
use lspgraph.Base.{
  Text, List, ◌≡◌, ℕ, ◌+◌, ◌<◌, ltb, if◌then◌else◌, arith, true, false, none, some, [], ◌∷◌, refl,
  codes, ◌++◌, Bool,
}
use lspgraph.Error.{Result, from_secs, ok}
use lspgraph.Graph.{CallHierarchyItem, NodeId}
use lspgraph.Symbols.{Children, DocumentSymbol, symbol, function_kind, SymbolMatch}
use lspgraph.Readiness.{ReadinessConfig}
use lspgraph.Readiness.Wait.{ProbeOps, wait_until_ready}
use lspgraph.Readiness.Ends.{IsClock, wait_until_ready-ends}
use lspgraph.Readiness.Outcome.{Explains, candidates_of, wait_until_ready-Explains}
use lspgraph.Keys.{KeyEvent, KeyCode, char, enter}
use lspgraph.Worker.{EngineOps}
use lspgraph.Program.System.{
  System, start, press, receive_event, work, pressed, received, worked, Reach, begin, next, frame,
}
use lspgraph.Program.Served.{IsUnderWay}
use lspgraph.Program.Waits.{Reach-IsUnderWay}
use lspgraph.Program.Quits.{ctrl_c, pressed_out, session-ends}
use lspgraph.Program.Session.{Turn, session, frame_of}

abbrev main_id : NodeId
main_id = record { name = codes "main"; uri = codes "file:///main.rs"; line = 1; character = 2 }

abbrev main_match : SymbolMatch
main_match = record {
  name = codes "main";
  container = none;
  uri = codes "file:///main.rs";
  position = record { line = 1; character = 2 };
  kind = function_kind;
}

-- An engine that finds one symbol and no calls, and counts what it is asked.
abbrev one_symbol : EngineOps ℕ
one_symbol = record {
  can_search = λ n. true;
  search = λ n q. (n + 1, ok (main_match ∷ []));
  seed = λ n m. (n + 1, ok (some main_id));
  expand = λ n id. (n + 1, ok (record { callers = []; callees = [] }));
  node = λ n id. none;
  shutdown = λ n. (n, ok tt);
}

abbrev plain : KeyCode → KeyEvent
plain code = record { code = code; control = false }

abbrev typed : System ℕ
typed =
    (session one_symbol (frame_of 1 false (some (plain (char b'x'))) ∷ []) (start one_symbol 0)).0

abbrev found : System ℕ
found = receive_event (work one_symbol (press typed (plain enter)))

-- The match is chosen, and the worker has said which node it is.
abbrev chosen : System ℕ
chosen = receive_event (work one_symbol (press found (plain enter)))

-- A letter is typed, then ctrl-c is pressed, and the rest of the turns is not taken.
abbrev typing : List Turn
typing = frame_of 1 false (some (plain (char b'x'))) ∷ []

session-ends_example :
    let s = start one_symbol 0 in
    let e = session one_symbol (typing ++ frame_of 0 false (some ctrl_c) ∷ typing) s in
    (e.1 ≡ true)
    × (e.0 ≡ frame 0 false (some ctrl_c) (session one_symbol typing s).0)
    × (e.0.app.should_quit ≡ true)
unfolding session lspgraph.Keys.search_key lspgraph.App.push_query_char
session-ends_example =
    session-ends one_symbol typing typing (start one_symbol 0) 0 false (some ctrl_c) refl
      (pressed_out 0 false)

typed-Reach : Reach one_symbol 0 typed
unfolding session lspgraph.Keys.search_key lspgraph.App.push_query_char
typed-Reach = next (next begin received) (pressed (plain (char b'x')))

chosen-Reach : Reach one_symbol 0 chosen
unfolding work receive_event press session lspgraph.Keys.search_key lspgraph.App.push_query_char
    lspgraph.App.submit_query lspgraph.App.chosen_match
chosen-Reach =
    next
      (next
        (next (next (next (next typed-Reach (pressed (plain enter))) (worked refl)) received)
          (pressed (plain enter)))
        (worked refl))
      received

Reach-IsUnderWay_example : IsUnderWay main_id chosen
unfolding session work receive_event press lspgraph.Keys.search_key lspgraph.App.push_query_char
    lspgraph.App.submit_query lspgraph.App.chosen_match
Reach-IsUnderWay_example = Reach-IsUnderWay one_symbol chosen-Reach main_id refl

abbrev main_item : CallHierarchyItem
main_item = record {
  name = codes "main";
  kind = function_kind;
  detail = none;
  uri = codes "/main.rs";
  selection_start = main_match.position;
  others = [];
}

-- A server that answers from the first second on; its state is the time.
abbrev slow_server : ProbeOps ℕ
slow_server = record {
  now = λ t. t;
  sleep = λ t d. t + d;
  open_file = λ t path language_id. (t, ok tt);
  document_symbols = λ t path. (
    t,
    ok (
        Children.cons (symbol (codes "main") function_kind main_match.position Children.nil)
          Children.nil),
  );
  prepare_call_hierarchy =
      λ t path pos. (t, ok (if ltb t (from_secs 1) then [] else main_item ∷ []));
  path_to_uri = λ path. path;
  to_file_path = λ url. some url;
  tables = record { is_alphabetic = λ c. true; is_alphanumeric = λ c. true };
}

abbrev short_wait : ReadinessConfig
short_wait = record { max_files = 4; per_file = 3; timeout = from_secs 2 }

abbrev one_file : List Text
one_file = codes "/main.rs" ∷ []

slow_clock : IsClock slow_server
slow_clock = (λ s d. omega arith, λ s p l. omega arith, λ s p. omega arith, λ s p q. omega arith)

wait_until_ready-ends_example :
    (r : ℕ × Result {0} Unit) × (wait_until_ready slow_server 3 0 one_file (codes "rust") short_wait
      ≡ some r)
wait_until_ready-ends_example =
    wait_until_ready-ends slow_server 0 one_file (codes "rust") short_wait 2 slow_clock
      (omega arith)

wait_until_ready-Explains_example :
    Explains slow_server short_wait
      (from_secs 2)
      (candidates_of slow_server 0 one_file (codes "rust") short_wait)
      (from_secs 1, ok tt)
unfolding wait_until_ready lspgraph.Readiness.even_stride lspgraph.Symbols.is_named_callable
    lspgraph.Symbols.is_callable_name lspgraph.Base.all lspgraph.Base.Str.split
    lspgraph.Symbols.is_plain_identifier
wait_until_ready-Explains_example =
    wait_until_ready-Explains slow_server 3 0 one_file (codes "rust") short_wait
      (from_secs 1, ok tt) refl
