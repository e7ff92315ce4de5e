-- ===== src/Tests/Callers.antt =====
-- Callers and the reader's thread, and requests on a link, at concrete inputs.
use lspgraph.Base.{
  ℕ, true, false, none, some, List, [], ◌∷◌, Bytes, Text, codes, ◌≡◌, ◌⊎◌, inl, refl, ℕ_discrete,
}
use lspgraph.Base.Map.{get}
use lspgraph.Error.{Error, Result, err, Duration}
use lspgraph.Json
use lspgraph.Json.{Value}
use lspgraph.Transport.{arrived, timed_out}
use lspgraph.Transport.Callers.{
  Phase, drawn, registered, waiting, Call, Finished, World, start, begin, enlist, send, hear, wake,
  end_reading, begins, enlists, sends, hears, wakes, ends, Reach, here, next, entry_at,
}
use lspgraph.Transport.Listed.{Explains}
use lspgraph.Transport.Awaited.{Awaits, finished-Explains, waiting-Awaits, IsCutOff-expires}

abbrev to_vec : Value → Bytes
to_vec v = []

abbrev response : Value
response = Value.obj (
    Json.Fields.field (codes "id") (Value.num (Json.Number.pos_int 1))
      (Json.Fields.field (codes "result") Value.null Json.Fields.end))

abbrev method : Text
method = codes "m"

abbrev call_in : Phase → lspgraph.Base.Bool → List Value → Call
call_in phase late heard = record {
  method = method;
  params = Value.null;
  timeout = 5;
  phase = phase;
  late = late;
  stranded = false;
  heard = heard;
}

-- A call that is sent, to a reader that reads.
abbrev sent_world : World
sent_world =
    send to_vec (enlist (begin (start []) method Value.null 5) 1 (call_in drawn false [])) 1
      (call_in registered false [])

sent : Reach to_vec (start []) sent_world
unfolding begin enlist get
sent =
    let w : World = begin (start []) method Value.null 5 in
    let v : World = enlist w 1 (call_in drawn false []) in
    next
      (next (next here (begins (start []) method Value.null 5))
        (enlists w 1 (call_in drawn false []) refl refl))
      (sends v 1 (call_in registered false []) refl refl)

waiting-Awaits_example : Awaits sent_world 1 (call_in waiting false [])
unfolding send get enlist begin
waiting-Awaits_example = waiting-Awaits to_vec [] sent 1 (call_in waiting false []) refl refl

-- The answer comes, and the caller takes it.
abbrev answered_world : World
answered_world =
    wake to_vec (hear to_vec sent_world response) 1 (call_in waiting false (response ∷ [])) arrived

answered : Reach to_vec (start []) answered_world
unfolding send get enlist begin hear lspgraph.Base.Text-discrete
answered =
    let call = call_in waiting false (response ∷ []) in
    next (next sent (hears sent_world response refl))
      (wakes (hear to_vec sent_world response) 1 call arrived refl refl (response, refl))

abbrev answered_call : Finished
answered_call = record {
  call = call_in waiting false (response ∷ []);
  result = lspgraph.Error.ok Value.null;
}

finished-Explains_example : Explains true 1 (entry_at 1 answered_world.conn) answered_call
unfolding wake send get enlist begin hear lspgraph.Base.Text-discrete
finished-Explains_example = finished-Explains to_vec [] answered 1 answered_call refl

-- A call that comes after the reader has ended.
abbrev late_world : World
late_world =
    send to_vec
      (enlist (begin (end_reading (start [])) method Value.null 5) 1 (call_in drawn false [])) 1
      (call_in registered true [])

abbrev expired_world : World
expired_world = wake to_vec late_world 1 (call_in waiting true []) timed_out

expired : Reach to_vec (start []) expired_world
unfolding begin enlist send get
expired =
    let e : World = end_reading (start []) in
    let w : World = begin e method Value.null 5 in
    let v : World = enlist w 1 (call_in drawn false []) in
    next
      (next
        (next (next (next here (ends (start []) refl)) (begins e method Value.null 5))
          (enlists w 1 (call_in drawn false []) refl refl))
        (sends v 1 (call_in registered true []) refl refl))
      (wakes late_world 1 (call_in waiting true []) timed_out refl refl tt)

abbrev expired_call : Finished
expired_call = record { call = call_in waiting true []; result = err (Error.timeout method 5) }

IsCutOff-expires_example :
    (expired_call.result ≡ err (Error.timeout method 5))
    ⊎ ((e : Text) × (expired_call.result ≡ err (Error.io e)))
unfolding begin enlist send get wake
IsCutOff-expires_example = IsCutOff-expires to_vec [] expired 1 expired_call refl (inl refl)
