-- ===== src/Transport/Came.antt =====
-- The reader's turns of Transport/Link as steps of Transport/Callers, while a call waits.
use mathlib.Core.Option
use lspgraph.Base.{
  ℕ, zero, suc, Bool, true, Option, none, some, List, [], ◌∷◌, Bytes, Text, ◌≡◌, refl, ◌∙◌, subst,
  ap, ℕ_discrete, length, Bool-cases, inl, inr,
}
use lspgraph.Base.Map.{get-map_values}
use lspgraph.Error.{Duration}
use lspgraph.Json.{Value}
use lspgraph.Codec.{Decoder, next_message, push}
use lspgraph.Codec
use lspgraph.Transport.{Connection, reader_gone}
use lspgraph.Transport.Callers.{
  entry_at, mail_at, call_at, Call, World, hear, hear_call, strand, panic, end_reading, CanWake,
  hears, ends, panics, Reach, next, waiting,
}
use lspgraph.Transport.Loop.{
  ReadEnd, reads, ended, panicked, still_reads, handle, handle_value, drain, read_on,
}
use lspgraph.Transport.Link.{Link, found_by, after_turn, read_turn, take_turn}

-- A call of this method and time that waits under a number.
abbrev pub Waits : ℕ → Text → Duration → World → Type 0
Waits id method timeout w =
    (call : Call) × (call_at id w ≡ some call)
    × (call.phase ≡ waiting)
    × (call.method ≡ method)
    × (call.timeout ≡ timeout)

pub found_by-CanWake :
    (id : ℕ) (c : Connection) → CanWake id c (found_by (mail_at id c) (entry_at id c))
found_by-CanWake id c = by_case (mail_at id c) (entry_at id c) refl refl
  where
    by_case :
        (mail : Option Value) (entry : Option (Unit {0}))
        → mail_at id c ≡ mail
        → entry_at id c ≡ entry
        → CanWake id c (found_by mail entry)
    by_case (some m) entry found e = (m, found)
    by_case none (some u) nothing e = tt
    by_case none none nothing e = (e, nothing)

-- The link whose connection and reader are a world's.
abbrev pub link_of : World → Decoder → List (List Bytes) → Link
link_of w d turns = record { conn = w.conn; decoder = d; reading = w.reading; turns = turns }

module _ (to_vec : Value → Bytes) (from_slice : Bytes → Option Value) (b : World) (id : ℕ)
    (method : Text) (timeout : Duration) where
  hear-Waits :
      (w : World) (msg : Value)
      → Waits id method timeout w
      → Waits id method timeout (hear to_vec w msg)
  unfolding hear
  hear-Waits w msg (call, at, phase, m, t) = (
    hear_call msg call,
    get-map_values ℕ_discrete (hear_call msg) id w.calls ∙ ap (Option.map (hear_call msg)) at,
    phase,
    m,
    t,
  )

  panic-Waits : (w : World) → Waits id method timeout w → Waits id method timeout (panic w)
  unfolding panic
  panic-Waits w (call, at, phase, m, t) = (
    strand call,
    get-map_values ℕ_discrete strand id w.calls ∙ ap (Option.map strand) at,
    phase,
    m,
    t,
  )

  -- A world to which the steps lead, with this connection, a reader that reads or not, and the call
  -- that still waits.
  pub record Comes (c : Connection) (reading : Bool) : Type 0 where
    pub later : World
    pub steps : Reach to_vec b later
    pub conn : later.conn ≡ c
    pub reads_still : later.reading ≡ reading
    pub waits : Waits id method timeout later

  drain-Comes :
      (n : ℕ) (w : World) (d : Decoder)
      → Reach to_vec b w
      → w.reading ≡ true
      → Waits id method timeout w
      → Comes (drain to_vec from_slice n w.conn d).0 true
  unfolding drain handle hear
  drain-Comes zero w d r on h = record {
    later = w;
    steps = r;
    conn = refl;
    reads_still = on;
    waits = h;
  }
  drain-Comes (suc n) w d r on h =
      by_outcome (next_message d).0 (next_message d).1 (λ w d r on h. drain-Comes n w d r on h)
    where
      Rest : Type 0
      Rest =
          (w : World) (d : Decoder)
          → Reach to_vec b w
          → w.reading ≡ true
          → Waits id method timeout w
          → Comes (drain to_vec from_slice n w.conn d).0 true

      by_value :
          (d' : Decoder) (v : Option Value)
          → Rest
          → Comes (drain to_vec from_slice n (handle_value to_vec from_slice w.conn v) d').0 true
      by_value d' none rest = rest w d' r on h
      by_value d' (some msg) rest =
          rest (hear to_vec w msg) d' (next r (hears w msg on)) on (hear-Waits w msg h)

      by_outcome :
          (d' : Decoder) (o : Codec.Outcome)
          → Rest
          → Comes
              (let q : Connection × Decoder × ReadEnd = elim o [
                | Codec.Outcome.ok none ↦ (w.conn, d', reads)
                | Codec.Outcome.ok (some body) ↦
                    drain to_vec from_slice n (handle to_vec from_slice w.conn body) d'
                | Codec.Outcome.err e ↦ (w.conn, d', ended)
                | Codec.Outcome.panics ↦ (w.conn, d', panicked)
              ] in
                q.0)
              true
      by_outcome d' (Codec.Outcome.ok none) rest = record {
        later = w;
        steps = r;
        conn = refl;
        reads_still = on;
        waits = h;
      }
      by_outcome d' (Codec.Outcome.ok (some body)) rest = by_value d' (from_slice body) rest
      by_outcome d' (Codec.Outcome.err e) rest = record {
        later = w;
        steps = r;
        conn = refl;
        reads_still = on;
        waits = h;
      }
      by_outcome d' Codec.Outcome.panics rest = record {
        later = w;
        steps = r;
        conn = refl;
        reads_still = on;
        waits = h;
      }

  read_on-Comes :
      (w : World) (d : Decoder) (cs : List Bytes)
      → Reach to_vec b w
      → w.reading ≡ true
      → Waits id method timeout w
      → Comes (read_on to_vec from_slice w.conn d cs).0 true
  unfolding read_on
  read_on-Comes w d [] r on h = record {
    later = w;
    steps = r;
    conn = refl;
    reads_still = on;
    waits = h;
  }
  read_on-Comes w d ([] ∷ cs) r on h = record {
    later = w;
    steps = r;
    conn = refl;
    reads_still = on;
    waits = h;
  }
  read_on-Comes w d ((x ∷ chunk) ∷ cs) r on h =
      let pushed = push d (x ∷ chunk) in
      let q = drain to_vec from_slice (suc (length pushed.buf)) w.conn pushed in
      let g = drain-Comes (suc (length pushed.buf)) w pushed r on h in
      elim (Bool-cases (still_reads q.2)) [
        | inl alive ↦ rw alive (
            subst (λ c. Comes (read_on to_vec from_slice c q.1 cs).0 true) g.conn
              (read_on-Comes g.later q.1 cs g.steps g.reads_still g.waits))
        | inr over ↦ rw over g
      ]

  -- The reader behind a turn.
  after_turn-Comes :
      (l : Link) (q : Connection × Decoder × ReadEnd)
      → Comes q.0 true
      → let l' = after_turn to_vec from_slice l q in Comes l'.conn l'.reading
  unfolding panic
  after_turn-Comes l (c, d, reads) g = g
  after_turn-Comes l (c, d, ended) g = record {
    later = end_reading g.later;
    steps = next g.steps (ends g.later g.reads_still);
    conn = ap reader_gone g.conn;
    reads_still = refl;
    waits = g.waits;
  }
  after_turn-Comes l (c, d, panicked) g = record {
    later = panic g.later;
    steps = next g.steps (panics g.later g.reads_still);
    conn = g.conn;
    reads_still = refl;
    waits = panic-Waits g.later g.waits;
  }

  pub take_turn-Comes :
      (w : World) (d : Decoder) (left turns : List (List Bytes))
      → Reach to_vec b w
      → Waits id method timeout w
      → let l' = take_turn to_vec from_slice (link_of w d left) turns in Comes l'.conn l'.reading
  unfolding take_turn read_turn
  take_turn-Comes w d left [] r h = record {
    later = w;
    steps = r;
    conn = refl;
    reads_still = refl;
    waits = h;
  }
  take_turn-Comes w d left (cs ∷ turns) r h = elim (Bool-cases w.reading) [
    | inl on ↦
        let l : Link = record { conn = w.conn; decoder = d; reading = true; turns = turns } in
        rw on
          (after_turn-Comes l (read_on to_vec from_slice w.conn d cs) (read_on-Comes w d cs r on h))
    | inr off ↦ rw off (record { later = w; steps = r; conn = refl; reads_still = off; waits = h })
  ]
