-- ===== src/Transport/Awaited.antt =====
-- What the callers of `Connection::request` can rely on, in whatever order they and the reader's
-- thread take turns (crates/lspgraph-core/src/transport/mod.rs).
use lspgraph.Base.{
  ◌||◌, Bool, true, false, Option, none, some, ℕ, List, ◌≡◌, ◌⊎◌, inl, inr, sym, ◌∙◌, refl, Text,
  Bytes, subst,
}
use lspgraph.Error.{Error, err}
use lspgraph.Json.{Value}
use lspgraph.Transport.{WriteEnd, arrived, disconnected}
use lspgraph.Transport.Answers.{first_answer}
use lspgraph.Transport.Callers.{
  entry_at, mail_at, call_at, finished_at, Call, Finished, World, start, CanWake, Reach, waiting,
}
use lspgraph.Transport.Listed.{
  IsListed, IsPlaced, Explains, answered, expired, abandoned, unsent, still_registered,
}
use lspgraph.Transport.Sound.{IsSound, start-IsSound, called-IsPlaced}
use lspgraph.Transport.Stepped.{Reach-IsSound}

-- The kinds of waiting: an answer is there; nobody can send one any more; the reader is still to
-- find one; or the call was registered with a reader that had ended, or the reader has panicked.
abbrev pub Awaits : World → ℕ → Call → Type 0
Awaits w id call =
    CanWake id w.conn arrived
    ⊎ CanWake id w.conn disconnected
    ⊎ (mail_at id w.conn ≡ none)
      × (entry_at id w.conn ≡ some tt)
      × (w.reading ≡ true)
      × (call.late ≡ false)
      × (call.stranded ≡ false)
    ⊎ (mail_at id w.conn ≡ none)
      × (entry_at id w.conn ≡ some tt)
      × (w.reading ≡ false)
      × ((call.late ≡ true) ⊎ (call.stranded ≡ true))

-- A call that the reader's end passes by before there is an answer.
abbrev pub IsCutOff : ℕ → Call → Type 0
IsCutOff id call = (call.late ≡ true) ⊎ (call.stranded ≡ true) × (first_answer id call.heard ≡ none)

module _ (to_vec : Value → Bytes) (writes : List WriteEnd) {w : World}
    (reached : Reach to_vec (start writes) w) where
  sound : IsSound w
  sound = Reach-IsSound to_vec reached (start-IsSound writes)

  -- In whatever order callers and reader take turns: a call that returned gives what its method makes
  -- of the first message that the reader handled under its number since it was registered; or the
  -- error of its time, which may run out at any moment; or, where the reader has ended without a panic
  -- and had handled no such message, the error of a server that exited; or the error of its write. In all cases but
  -- the last its number is registered no more.
  pub finished-Explains :
      (id : ℕ) (f : Finished)
      → finished_at id w ≡ some f
      → Explains w.reading id (entry_at id w.conn) f
  finished-Explains id f h = by_call (call_at id w) refl
    where
      by_call : (c : Option Call) → call_at id w ≡ c → Explains w.reading id (entry_at id w.conn) f
      by_call none e = rw (e, h) at (sound.good id)
      by_call (some c) e = absurd (rw (e, h) at (sound.good id))

  listed-Awaits :
      (id : ℕ) (call : Call)
      → IsListed w.reading id call (entry_at id w.conn) (mail_at id w.conn)
      → Awaits w id call
  listed-Awaits id call l =
      by_case w.reading call.late call.stranded (mail_at id w.conn) refl refl refl refl
    where
      entry :
          (reading late stranded : Bool)
          → w.reading ≡ reading
          → call.late ≡ late
          → call.stranded ≡ stranded
          → mail_at id w.conn ≡ none
          → entry_at id w.conn ≡ still_registered reading (late || stranded) none
      entry reading late stranded r l' s h =
          l.entry ∙ (λ i. still_registered (r i) (l' i || s i) ((sym l.answer ∙ h) i))

      by_case :
          (reading late stranded : Bool) (mail : Option Value)
          → w.reading ≡ reading
          → call.late ≡ late
          → call.stranded ≡ stranded
          → mail_at id w.conn ≡ mail
          → Awaits w id call
      by_case reading late stranded (some m) r l' s h = inl (m, h)
      by_case true true stranded none r late s h = cc (r, (l.too_late late).0)
      by_case true false true none r early stuck h = cc (r, l.gone stuck)
      by_case true false false none r early free h =
          inr (inr (inl (h, entry true false false r early free h, r, early, free)))
      by_case false true stranded none r late s h =
          inr (inr (inr (h, entry false true stranded r late s h, r, inl late)))
      by_case false false true none r early stuck h =
          inr (inr (inr (h, entry false false true r early stuck h, r, inr stuck)))
      by_case false false false none r early free h =
          inr (inl (entry false false false r early free h, h))

  -- In whatever order callers and reader take turns: while a call waits, an answer is there for it to
  -- take, or its sender is dropped, which wakes it; or there is no answer and it is registered, with a
  -- reader that still reads, or with one that has ended before it was registered or has panicked, so
  -- that nothing but its time can wake it.
  pub waiting-Awaits :
      (id : ℕ) (call : Call) → call_at id w ≡ some call → call.phase ≡ waiting → Awaits w id call
  waiting-Awaits id call h phase = listed-Awaits id call (
      subst (λ p. IsPlaced p w.reading id call (entry_at id w.conn) (mail_at id w.conn)) phase
        (called-IsPlaced w id call sound h).1)

  -- A call that is registered after the reader has ended, or that has no answer when the reader
  -- panics, never learns so: when it returns, its time has run out or its write has failed.
  pub IsCutOff-expires :
      (id : ℕ) (f : Finished)
      → finished_at id w ≡ some f
      → IsCutOff id f.call
      → (f.result ≡ err (Error.timeout f.call.method f.call.timeout))
        ⊎ ((e : Text) × (f.result ≡ err (Error.io e)))
  IsCutOff-expires id f h cut = elim (finished-Explains id f h) [
    | answered m a early r e ↦ elim cut [ inl late ↦ cc | inr (stuck, nothing) ↦ cc ]
    | expired r e ↦ inl r
    | abandoned gone early free a r e ↦ elim cut [ inl late ↦ cc | inr (stuck, nothing) ↦ cc ]
    | unsent e r p ↦ inr (e, r)
  ]
