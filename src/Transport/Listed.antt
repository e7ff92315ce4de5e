-- ===== src/Transport/Listed.antt =====
-- A call of Transport/Callers against the entries under its number, as the steps of others change them.
use lspgraph.Base.{
  ℕ, arith, Bool, true, false, not, ◌||◌, Option, none, some, List, [], Text, ◌≡◌, if◌then◌else◌,
  refl, sym, ap, ◌∙◌,
}
use mathlib.Core.Option
use lspgraph.Error.{Error, err}
use lspgraph.Json.{Value}
use lspgraph.Transport.{classify}
use lspgraph.Transport.Answers.{answers, first_answer, first_answer-append, or_else, mail_after}
use lspgraph.Transport.Callers.{Phase, drawn, registered, waiting, Call, Finished, hear_call}

-- Whether a call that was registered is still, by whether the reader reads, whether its end passes the
-- call by, and the answer.
abbrev pub still_registered : Bool → Bool → Option Value → Option (Unit {0})
still_registered true passed none = some tt
still_registered true passed (some m) = none
still_registered false true none = some tt
still_registered false true (some m) = none
still_registered false false answer = none

-- A call whose number is registered, against the entries under the number.
pub record IsListed (reading : Bool) (id : ℕ) (call : Call) (pending : Option (Unit {0}))
    (mail : Option Value) : Type 0 where
  pub answer : mail ≡ first_answer id call.heard
  pub entry :
      pending ≡ still_registered reading (call.late || call.stranded) (first_answer id call.heard)
  pub too_late : call.late ≡ true → (reading ≡ false) × (call.heard ≡ [])
  pub gone : call.stranded ≡ true → reading ≡ false

abbrev pub IsPlaced : Phase → Bool → ℕ → Call → Option (Unit {0}) → Option Value → Type 0
IsPlaced drawn reading id call pending mail = (pending ≡ none) × (mail ≡ none)
IsPlaced registered reading id call pending mail = IsListed reading id call pending mail
IsPlaced waiting reading id call pending mail = IsListed reading id call pending mail

-- Why a call returned what it did, and whether it is registered behind that.
pub data Explains (reading : Bool) (id : ℕ) (pending : Option (Unit {0})) (f : Finished)
    : Type 0 where
  answered :
      (m : Value)
      → first_answer id f.call.heard ≡ some m
      → f.call.late ≡ false
      → f.result ≡ classify f.call.method m
      → pending ≡ none
      → Explains reading id pending f
  expired :
      f.result ≡ err (Error.timeout f.call.method f.call.timeout)
      → pending ≡ none
      → Explains reading id pending f
  abandoned :
      reading ≡ false
      → f.call.late ≡ false
      → f.call.stranded ≡ false
      → first_answer id f.call.heard ≡ none
      → f.result ≡ err Error.server_exited
      → pending ≡ none
      → Explains reading id pending f
  unsent :
      (e : Text)
      → f.result ≡ err (Error.io e)
      → f.call.phase ≡ registered
      → Explains reading id pending f

abbrev pub IsGood :
    Bool → ℕ → Option (Unit {0}) → Option Value → Option Call → Option Finished → Type 0
IsGood reading id pending mail none none = (pending ≡ none) × (mail ≡ none)
IsGood reading id pending mail (some call) none = IsPlaced call.phase reading id call pending mail
IsGood reading id pending mail none (some f) = Explains reading id pending f
IsGood reading id pending mail (some call) (some f) = ⊥

pub gone_early :
    (reading late : Bool)
    → none ≡ still_registered reading late none
    → (reading ≡ false) × (late ≡ false)
gone_early true late h = cc
gone_early false true h = cc
gone_early false false h = (refl, refl)

pub unregistered : (answer : Option Value) → none ≡ still_registered false false answer
unregistered none = refl
unregistered (some m) = refl

pub answered_entry :
    (reading passed : Bool) (m : Value) → still_registered reading passed (some m) ≡ none
answered_entry true passed m = refl
answered_entry false true m = refl
answered_entry false false m = refl

-- A call that the reader's end does not pass by.
pub either_false : (a b : Bool) → (a || b) ≡ false → (a ≡ false) × (b ≡ false)
either_false a b h = ground (arith, h)

pub neither : (a b : Bool) → a ≡ false → b ≡ false → (a || b) ≡ false
neither a b h k = ground (arith, h, k)

pub answered_early :
    (late : Bool) (id : ℕ) (heard : List Value) (m : Value)
    → first_answer id heard ≡ some m
    → (late ≡ true → heard ≡ [])
    → late ≡ false
unfolding first_answer
answered_early false id heard m h too_late = refl
answered_early true id heard m h too_late =
    let nothing : first_answer id heard ≡ none = ap (first_answer id) (too_late refl) in cc

-- The answer and the entry of a registered call behind one more message.
pub heard_answer :
    (b late : Bool) (msg : Value) (answer : Option Value)
    → let longer = or_else answer (if b then some msg else none) in
      (mail_after b (still_registered true late answer) msg answer ≡ longer)
      × ((if b then none else still_registered true late answer)
          ≡ still_registered true late longer)
heard_answer true late msg none = (refl, refl)
heard_answer true late msg (some m) = (refl, refl)
heard_answer false late msg none = (refl, refl)
heard_answer false late msg (some m) = (refl, refl)

pub nobody_hears :
    (b : Bool) (msg : Value) (pending : Option (Unit {0})) (mail : Option Value)
    → pending ≡ none
    → mail ≡ none
    → ((if b then none else pending) ≡ none) × (mail_after b pending msg mail ≡ none)
nobody_hears true msg pending mail h k = rw h (refl, k)
nobody_hears false msg pending mail h k = (h, k)

pub newly_registered :
    (reading : Bool) → some tt ≡ still_registered reading (not reading || false) none
newly_registered true = refl
newly_registered false = refl

pub heard-IsListed :
    (id : ℕ) (msg : Value) (call : Call) (pending : Option (Unit {0})) (mail : Option Value)
    → IsListed true id call pending mail
    → IsListed true id
        (hear_call msg call)
        (if answers id msg then none else pending)
        (mail_after (answers id msg) pending msg mail)
heard-IsListed id msg call pending mail l =
    let longer = first_answer-append id call.heard msg in
    let answer = heard_answer (answers id msg) call.late msg (first_answer id call.heard) in
    record {
      answer = rw (l.entry, l.answer) (answer.0 ∙ sym longer);
      entry = rw (longer, l.entry) answer.1;
      too_late = λ late. cc ((l.too_late late).0);
      gone = l.gone;
    }

pub heard-IsPlaced :
    (p : Phase) (id : ℕ) (msg : Value) (call : Call) (pending : Option (Unit {0}))
    (mail : Option Value)
    → IsPlaced p true id call pending mail
    → IsPlaced p true id
        (hear_call msg call)
        (if answers id msg then none else pending)
        (mail_after (answers id msg) pending msg mail)
heard-IsPlaced drawn id msg call pending mail g =
    nobody_hears (answers id msg) msg pending mail g.0 g.1
heard-IsPlaced registered id msg call pending mail g = heard-IsListed id msg call pending mail g
heard-IsPlaced waiting id msg call pending mail g = heard-IsListed id msg call pending mail g

pub heard-Explains :
    (id : ℕ) (b : Bool) (pending : Option (Unit {0})) (f : Finished)
    → Explains true id pending f
    → Explains true id (if b then none else pending) f
heard-Explains id true pending f (answered m a l r e) = answered m a l r refl
heard-Explains id true pending f (expired r e) = expired r refl
heard-Explains id true pending f (abandoned gone l s a r e) = abandoned gone l s a r refl
heard-Explains id true pending f (unsent e r p) = unsent e r p
heard-Explains id false pending f g = g

pub heard-IsGood :
    (id : ℕ) (msg : Value) (reading : Bool) (pending : Option (Unit {0})) (mail : Option Value)
    (call : Option Call) (f : Option Finished)
    → reading ≡ true
    → IsGood reading id pending mail call f
    → IsGood reading id
        (if answers id msg then none else pending)
        (mail_after (answers id msg) pending msg mail)
        (Option.map (hear_call msg) call)
        f
heard-IsGood id msg false pending mail call f reads g = cc
heard-IsGood id msg true pending mail none none reads g =
    nobody_hears (answers id msg) msg pending mail g.0 g.1
heard-IsGood id msg true pending mail (some call) none reads g =
    heard-IsPlaced call.phase id msg call pending mail g
heard-IsGood id msg true pending mail none (some f) reads g =
    heard-Explains id (answers id msg) pending f g
heard-IsGood id msg true pending mail (some call) (some f) reads g = g
