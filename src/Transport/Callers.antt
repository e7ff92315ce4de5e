-- ===== src/Transport/Callers.antt =====
-- The callers of `Connection::request` and the reader's thread in any order
-- (crates/lspgraph-core/src/transport/mod.rs). A call draws its number, registers it, writes its
-- message and waits; between any two of these others may run. What a single lock or channel guards is
-- one step. `late`, `stranded` and `heard` only record: whether the reader had ended when the call was
-- registered, whether it has panicked since, and the messages that it has handled since.
use lspgraph.Base.{
  ℕ, Bool, true, false, not, Option, none, some, List, [], ◌∷◌, ◌++◌, Bytes, Text, ◌≡◌, ℕ_discrete,
}
use lspgraph.Base.Map.{get, insert, remove, map_values}
use lspgraph.Error.{Result, ok, err, Duration}
use lspgraph.Json.{Value}
use lspgraph.Transport.{
  Connection, WriteEnd, Wait, new, draw_id, register, write, dispatch, request_message, receive,
  reader_gone, notify, arrived, timed_out, disconnected,
}

pub data Phase : Type 0 where
  drawn registered waiting : Phase

pub record Call : Type 0 where
  pub method : Text
  pub params : Value
  pub timeout : Duration
  pub phase : Phase
  pub late : Bool
  pub stranded : Bool
  pub heard : List Value

pub record Finished : Type 0 where
  pub call : Call
  pub result : Result Value

-- The connection, whether the reader is in its loop, the calls under way, and those that returned.
pub record World : Type 0 where
  pub conn : Connection
  pub reading : Bool
  pub calls : List (ℕ × Call)
  pub finished : List (ℕ × Finished)

-- What stands under a number.
abbrev pub entry_at : ℕ → Connection → Option (Unit {0})
entry_at id c = get ℕ_discrete id c.pending

abbrev pub mail_at : ℕ → Connection → Option Value
mail_at id c = get ℕ_discrete id c.mailboxes

abbrev pub call_at : ℕ → World → Option Call
call_at id w = get ℕ_discrete id w.calls

abbrev pub finished_at : ℕ → World → Option Finished
finished_at id w = get ℕ_discrete id w.finished

abbrev pub start : List WriteEnd → World
start writes = record { conn = new writes; reading = true; calls = []; finished = [] }

unfoldable pub begin : World → Text → Value → Duration → World
unfolding insert ℕ_discrete
begin w method params timeout =
    let (conn, id) = draw_id w.conn in
    let call : Call = record {
      method = method;
      params = params;
      timeout = timeout;
      phase = drawn;
      late = false;
      stranded = false;
      heard = [];
    } in
    record w { conn = conn; calls = insert ℕ_discrete id call w.calls }

unfoldable pub enlist : World → ℕ → Call → World
unfolding insert ℕ_discrete register
enlist w id call =
    let call' = record call {
      phase = registered;
      late = not w.reading;
      stranded = false;
      heard = [];
    } in
    record w { conn = register w.conn id; calls = insert ℕ_discrete id call' w.calls }

unfoldable pub finish : World → ℕ → Call → Connection × Result Value → World
unfolding insert remove ℕ_discrete
finish w id call (conn, result) = record w {
  conn = conn;
  calls = remove ℕ_discrete id w.calls;
  finished = insert ℕ_discrete id (record { call = call; result = result }) w.finished;
}

-- `self.write(&msg)?`.
unfoldable pub after_write : World → ℕ → Call → Connection × Result {0} Unit → World
unfolding finish insert ℕ_discrete
after_write w id call (conn, err e) = finish w id call (conn, err e)
after_write w id call (conn, ok _) = record w {
  conn = conn;
  calls = insert ℕ_discrete id (record call { phase = waiting }) w.calls;
}

abbrev pub hear_call : Value → Call → Call
hear_call msg call = record call { heard = call.heard ++ msg ∷ [] }

abbrev pub end_reading : World → World
end_reading w = record w { conn = reader_gone w.conn; reading = false }

abbrev pub strand : Call → Call
strand call = record call { stranded = true }

-- The reader dies in the decoder, and disconnects nobody.
unfoldable pub panic : World → World
unfolding map_values
panic w = record w { reading = false; calls = map_values strand w.calls }

-- How a wait can end: with an answer that is there, with the sender dropped, or at any time by the
-- time running out.
abbrev pub CanWake : ℕ → Connection → Wait → Type 0
CanWake id c arrived = (m : Value) × (mail_at id c ≡ some m)
CanWake id c timed_out = Unit
CanWake id c disconnected = (entry_at id c ≡ none) × (mail_at id c ≡ none)

module _ (to_vec : Value → Bytes) where
  unfoldable pub send : World → ℕ → Call → World
  unfolding after_write write
  send w id call =
      after_write w id call (write to_vec w.conn (request_message id call.method call.params))

  unfoldable pub hear : World → Value → World
  unfolding dispatch map_values
  hear w msg = record w {
    conn = dispatch to_vec w.conn msg;
    calls = map_values (hear_call msg) w.calls;
  }

  unfoldable pub wake : World → ℕ → Call → Wait → World
  unfolding finish receive
  wake w id call wait = finish w id call (receive w.conn id call.method call.timeout wait)

  pub data Step : World → World → Type 0 where
    begins :
        (w : World) (method : Text) (params : Value) (timeout : Duration)
        → Step w (begin w method params timeout)
    enlists :
        (w : World) (id : ℕ) (call : Call)
        → call_at id w ≡ some call
        → call.phase ≡ drawn
        → Step w (enlist w id call)
    sends :
        (w : World) (id : ℕ) (call : Call)
        → call_at id w ≡ some call
        → call.phase ≡ registered
        → Step w (send w id call)
    wakes :
        (w : World) (id : ℕ) (call : Call) (wait : Wait)
        → call_at id w ≡ some call
        → call.phase ≡ waiting
        → CanWake id w.conn wait
        → Step w (wake w id call wait)
    hears : (w : World) (msg : Value) → w.reading ≡ true → Step w (hear w msg)
    tells :
        (w : World) (method : Text) (params : Value)
        → Step w (record w { conn = (notify to_vec w.conn method params).0 })
    ends : (w : World) → w.reading ≡ true → Step w (end_reading w)
    panics : (w : World) → w.reading ≡ true → Step w (panic w)

  pub data Reach (w : World) : World → Type 0 where
    here : Reach w w
    next : {v u : World} → Reach w v → Step v u → Reach w u
