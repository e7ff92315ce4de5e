-- ===== src/Transport/Left.antt =====
-- The calls of Transport/Callers behind the end of the reader, and behind its panic.
use lspgraph.Base.{
  ℕ, Bool, true, false, ◌||◌, Option, none, some, ◌≡◌, inl, inr, refl, sym, ap, Bool-cases, ◌∙◌,
}
use mathlib.Core.Option
use lspgraph.Json.{Value}
use lspgraph.Transport.Answers.{first_answer}
use lspgraph.Transport.Callers.{Phase, drawn, registered, waiting, Call, Finished, strand}
use lspgraph.Transport.Listed.{
  IsListed, IsPlaced, Explains, IsGood, answered, expired, abandoned, unsent, still_registered,
  unregistered, neither,
}

-- The end of a reader that reads reaches the calls that are registered.
listed-IsReached :
    (id : ℕ) (call : Call) (pending : Option (Unit {0})) (mail : Option Value)
    → IsListed true id call pending mail
    → (call.late || call.stranded) ≡ false
listed-IsReached id call pending mail l =
    neither call.late call.stranded
      (elim (Bool-cases call.late) [ inl late ↦ cc ((l.too_late late).0) | inr early ↦ early ])
      (elim (Bool-cases call.stranded) [ inl stuck ↦ cc (l.gone stuck) | inr free ↦ free ])

ended-IsListed :
    (id : ℕ) (call : Call) (pending : Option (Unit {0})) (mail : Option Value)
    → IsListed true id call pending mail
    → IsListed false id call none mail
ended-IsListed id call pending mail l = record {
  answer = l.answer;
  entry = rw (listed-IsReached id call pending mail l) (unregistered (first_answer id call.heard));
  too_late = λ late. (refl, (l.too_late late).1);
  gone = λ stranded. refl;
}

stays_registered :
    (passed : Bool) (answer : Option Value)
    → still_registered true passed answer ≡ still_registered false true answer
stays_registered passed none = refl
stays_registered passed (some m) = refl

either_true : (a : Bool) → (a || true) ≡ true
either_true true = refl
either_true false = refl

-- The panic passes by every call that is registered.
stranded-IsListed :
    (id : ℕ) (call : Call) (pending : Option (Unit {0})) (mail : Option Value)
    → IsListed true id call pending mail
    → IsListed false id (strand call) pending mail
stranded-IsListed id call pending mail l = record {
  answer = l.answer;
  entry =
      l.entry
      ∙ stays_registered (call.late || call.stranded) (first_answer id call.heard)
      ∙ ap (λ b. still_registered false b (first_answer id call.heard))
          (sym (either_true call.late));
  too_late = λ late. (refl, (l.too_late late).1);
  gone = λ stranded. refl;
}

stranded-IsPlaced :
    (p : Phase) (id : ℕ) (call : Call) (pending : Option (Unit {0})) (mail : Option Value)
    → IsPlaced p true id call pending mail
    → IsPlaced p false id (strand call) pending mail
stranded-IsPlaced drawn id call pending mail g = g
stranded-IsPlaced registered id call pending mail g = stranded-IsListed id call pending mail g
stranded-IsPlaced waiting id call pending mail g = stranded-IsListed id call pending mail g

stranded-Explains :
    (id : ℕ) (pending : Option (Unit {0})) (f : Finished)
    → Explains true id pending f
    → Explains false id pending f
stranded-Explains id pending f (answered m a l r e) = answered m a l r e
stranded-Explains id pending f (expired r e) = expired r e
stranded-Explains id pending f (abandoned gone l s a r e) = abandoned refl l s a r e
stranded-Explains id pending f (unsent e r p) = unsent e r p

pub stranded-IsGood :
    (id : ℕ) (reading : Bool) (pending : Option (Unit {0})) (mail : Option Value)
    (call : Option Call) (f : Option Finished)
    → reading ≡ true
    → IsGood reading id pending mail call f
    → IsGood false id pending mail (Option.map strand call) f
stranded-IsGood id false pending mail call f reads g = cc
stranded-IsGood id true pending mail none none reads g = g
stranded-IsGood id true pending mail (some call) none reads g =
    stranded-IsPlaced call.phase id call pending mail g
stranded-IsGood id true pending mail none (some f) reads g = stranded-Explains id pending f g
stranded-IsGood id true pending mail (some call) (some f) reads g = g

ended-IsPlaced :
    (p : Phase) (id : ℕ) (call : Call) (pending : Option (Unit {0})) (mail : Option Value)
    → IsPlaced p true id call pending mail
    → IsPlaced p false id call none mail
ended-IsPlaced drawn id call pending mail g = (refl, g.1)
ended-IsPlaced registered id call pending mail g = ended-IsListed id call pending mail g
ended-IsPlaced waiting id call pending mail g = ended-IsListed id call pending mail g

ended-Explains :
    (id : ℕ) (pending : Option (Unit {0})) (f : Finished)
    → Explains true id pending f
    → Explains false id none f
ended-Explains id pending f (answered m a l r e) = answered m a l r refl
ended-Explains id pending f (expired r e) = expired r refl
ended-Explains id pending f (abandoned gone l s a r e) = abandoned refl l s a r refl
ended-Explains id pending f (unsent e r p) = unsent e r p

pub ended-IsGood :
    (id : ℕ) (reading : Bool) (pending : Option (Unit {0})) (mail : Option Value)
    (call : Option Call) (f : Option Finished)
    → reading ≡ true
    → IsGood reading id pending mail call f
    → IsGood false id none mail call f
ended-IsGood id false pending mail call f reads g = cc
ended-IsGood id true pending mail none none reads g = (refl, g.1)
ended-IsGood id true pending mail (some call) none reads g =
    ended-IsPlaced call.phase id call pending mail g
ended-IsGood id true pending mail none (some f) reads g = ended-Explains id pending f g
ended-IsGood id true pending mail (some call) (some f) reads g = g
