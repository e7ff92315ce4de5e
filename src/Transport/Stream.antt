-- ===== src/Transport/Stream.antt =====
-- However the bytes of a stream of frames are cut into chunks, the reader handles every message once
-- and in order.
use lspgraph.Base.{
  ℕ, zero, suc, ◌<◌, Option, none, some, List, [], ◌∷◌, ◌++◌, Bytes, length, All, ◌≡◌, ◌≢◌, ◌⊎◌,
  inl, inr, refl, sym, ap, ◌∙◌, append-nil, arith, append_assoc, length-append,
}
use lspgraph.Json.{Value}
use lspgraph.Codec.{Decoder, encode, next_message, push, find_subslice, blank_line}
use lspgraph.Codec
use lspgraph.Codec.Framing.{Fits, next_message-encode, next_message-prefix, length-encode}
use lspgraph.Transport.{Connection}
use lspgraph.Transport.Loop.{ReadEnd, reads, handle, drain, read_on, read_chunks}

-- Of two ways to cut a list, one cuts no earlier than the other.
append-cases :
    (a b c d : Bytes)
    → a ++ b ≡ c ++ d
    → ((e : Bytes) × (a ≡ c ++ e) × (e ++ b ≡ d)) ⊎ ((e : Bytes) × (e ≢ []) × (a ++ e ≡ c))
append-cases a b [] d h = inl (a, refl, h)
append-cases [] b (y ∷ c) d h = inr (y ∷ c, λ p. cc, refl)
append-cases (x ∷ a) b (y ∷ c) d h =
    let same_head : x ≡ y = cc in
    let tails : a ++ b ≡ c ++ d = cc in
    elim (append-cases a b c d tails) [
      | inl (e, p, q) ↦ inl (e, rw (same_head, p) refl, q)
      | inr (e, more, p) ↦ inr (e, more, rw (same_head, p) refl)
    ]

-- The frames of the messages, and the chunks, one behind the other.
abbrev pub frames : List Bytes → Bytes
frames [] = []
frames (p ∷ ps) = encode p ++ frames ps

abbrev pub joined : List Bytes → Bytes
joined [] = []
joined (c ∷ cs) = c ++ joined cs

-- The buffer does not hold the first frame.
abbrev Short : Bytes → List Bytes → Type 0
Short buf [] = Unit
Short buf (p ∷ ps) = length buf < length (encode p)

length-pos : (e : Bytes) → e ≢ [] → 0 < length e
length-pos [] h = absurd (h refl)
length-pos (x ∷ e) h = omega arith

next_message-nil : next_message (record { buf = [] }) ≡ (record { buf = [] }, Codec.Outcome.ok none)
unfolding next_message find_subslice
next_message-nil = refl

module _ (to_vec : Value → Bytes) (from_slice : Bytes → Option Value) where
  -- The messages handled in order.
  abbrev pub handle_all : Connection → List Bytes → Connection
  handle_all c [] = c
  handle_all c (p ∷ ps) = handle_all (handle to_vec from_slice c p) ps

  drain-waits :
      (n : ℕ) (c : Connection) (d : Decoder)
      → next_message d ≡ (d, Codec.Outcome.ok none)
      → drain to_vec from_slice (suc n) c d ≡ (c, d, reads)
  unfolding drain
  drain-waits n c d waits = rw (waits, drain, ap (λ r. r.0) waits) refl

  drain-message :
      (n : ℕ) (c : Connection) (d d' : Decoder) (body : Bytes)
      → next_message d ≡ (d', Codec.Outcome.ok (some body))
      → drain to_vec from_slice (suc n) c d
        ≡ drain to_vec from_slice n (handle to_vec from_slice c body) d'
  unfolding drain
  drain-message n c d d' body found = rw (found, drain, ap (λ r. r.0) found) refl

  record Drained (c : Connection) (rest : Bytes) (ps : List Bytes)
      (r : Connection × Decoder × ReadEnd) : Type 0 where
    left : List Bytes
    fits : All Fits left
    handled : handle_all r.0 left ≡ handle_all c ps
    alive : r.2 ≡ reads
    remains : r.1.buf ++ rest ≡ frames left
    short : Short r.1.buf left

  drain-frames :
      (n : ℕ) (c : Connection) (buf rest : Bytes) (ps : List Bytes)
      → length buf < n
      → All Fits ps
      → buf ++ rest ≡ frames ps
      → Drained c rest ps (drain to_vec from_slice n c (record { buf = buf }))
  unfolding find_subslice
  drain-frames zero c buf rest ps enough fit h = absurd (ground arith)
  drain-frames (suc n) c [] rest [] enough fit h =
      rw (drain-waits n c (record { buf = [] }) next_message-nil)
        (record { left = []; fits = tt; handled = refl; alive = refl; remains = h; short = tt })
  drain-frames (suc n) c (b ∷ buf) rest [] enough fit h = absurd (ground arith)
  drain-frames (suc n) c buf rest (p ∷ ps) enough (fp, fit) h =
      elim (append-cases buf rest (encode p) (frames ps) h) [
        | inl (e, whole, more) ↦
            let next = next_message-encode p e fp in
            let smaller : length e < n =
              omega (arith, enough, ap length whole, length-append (encode p) e, length-encode p) in
            let again = drain-frames n (handle to_vec from_slice c p) e rest ps smaller fit more in
            let d : Decoder = record { buf = encode p ++ e } in
            rw (whole, drain-message n c d (record { buf = e }) p next)
              (record {
                left = again.left;
                fits = again.fits;
                handled = again.handled;
                alive = again.alive;
                remains = again.remains;
                short = again.short;
              })
        | inr (e, more, part) ↦
            let next = next_message-prefix p buf e fp part more in
            rw (drain-waits n c (record { buf = buf }) next) (record {
              left = p ∷ ps;
              fits = (fp, fit);
              handled = refl;
              alive = refl;
              remains = h;
              short = omega (arith, ap length part, length-append buf e, length-pos e more);
            })
      ]

  pub read_on-frames :
      (c : Connection) (d : Decoder) (cs ps : List Bytes)
      → All (λ x. x ≢ []) cs
      → All Fits ps
      → d.buf ++ joined cs ≡ frames ps
      → Short d.buf ps
      → read_on to_vec from_slice c d cs ≡ (handle_all c ps, Codec.new, reads)
  unfolding read_on
  read_on-frames c d [] [] full fit h short =
      let empty : d.buf ≡ [] = sym (append-nil d.buf) ∙ h in
      λ i. (c, record { buf = empty i }, reads)
  read_on-frames c d [] (p ∷ ps) full fit h short = absurd (
      omega
        (arith, short, ap length h, length-append d.buf [], length-append (encode p) (frames ps)))
  read_on-frames c d ([] ∷ cs) ps (x, full) fit h short = absurd (x refl)
  read_on-frames c d ((b ∷ chunk) ∷ cs) ps (x, full) fit h short =
      let buf = d.buf ++ b ∷ chunk in
      let h' : buf ++ joined cs ≡ frames ps = append_assoc d.buf (b ∷ chunk) (joined cs) ∙ h in
      let r = drain to_vec from_slice (suc (length buf)) c (push d (b ∷ chunk)) in
      let g = drain-frames (suc (length buf)) c buf (joined cs) ps (omega arith) fit h' in
      rw g.alive (
        read_on-frames r.0 r.1 cs g.left full g.fits g.remains g.short
        ∙ ap (λ (c : Connection). (c, Codec.new, reads)) g.handled)

  -- From an empty buffer.
  pub read_new-frames :
      (c : Connection) (cs ps : List Bytes)
      → All (λ x. x ≢ []) cs
      → All Fits ps
      → joined cs ≡ frames ps
      → read_on to_vec from_slice c Codec.new cs ≡ (handle_all c ps, Codec.new, reads)
  read_new-frames c cs [] full fit h = read_on-frames c Codec.new cs [] full fit h tt
  read_new-frames c cs (p ∷ ps) full fit h =
      read_on-frames c Codec.new cs (p ∷ ps) full fit h (omega (arith, length-encode p))

  -- A connection that reads the frames of messages, each of less than 2^64 bytes, in chunks that are
  -- not empty and are cut anywhere, ends in the state that handling the messages one by one in their
  -- order gives.
  pub read_chunks-frames :
      (c : Connection) (cs ps : List Bytes)
      → All (λ x. x ≢ []) cs
      → All Fits ps
      → joined cs ≡ frames ps
      → read_chunks to_vec from_slice c Codec.new cs ≡ handle_all c ps
  unfolding read_chunks
  read_chunks-frames c cs ps full fit h = ap (λ r. r.0) (read_new-frames c cs ps full fit h)
