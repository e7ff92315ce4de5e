-- ===== src/Codec/Search.antt =====
-- Where the blank line is found.
use mathlib.Core.Option
use lspgraph.Base.{
  ℕ, zero, suc, ◌+◌, ◌≤◌, some, [], ◌∷◌, ◌++◌, Bytes, Text-discrete, ℕ_discrete, ◌≡◌, ◌≢◌, refl,
  arith, get_or, take, length-take, length, holds, All, if◌then◌else◌, ap,
}
use lspgraph.Codec.{blank_line, find_subslice}

-- Text without a carriage return in front of a blank line: the blank line is found behind it.
pub find-no_return :
    (h rest : Bytes)
    → All (λ b. b ≢ 13) h
    → find_subslice blank_line (h ++ (blank_line ++ rest)) ≡ some (length h)
unfolding find_subslice Text-discrete ℕ_discrete
find-no_return [] rest a = refl
find-no_return (b ∷ h) rest (ne, a) =
    elim (Text-discrete (take 4 (b ∷ (h ++ (blank_line ++ rest)))) blank_line)
      as (λ d.
        (if holds d
          then some 0
          else Option.map suc (find_subslice blank_line (h ++ (blank_line ++ rest))))
        ≡ some (suc (length h))) [
          | yes p ↦ absurd (ne (ap (λ l. get_or l 0 0) p))
          | no p ↦ rw (find-no_return h rest a)
        ]

pub length-take-le : (n : ℕ) (s t : Bytes) → take n s ≡ t → length t ≤ length s
length-take-le n s t e = omega (arith, length-take n s, ap length e)

-- A position that is found holds the blank line: at least four bytes follow it.
pub find_bounds : (s : Bytes) (i : ℕ) → find_subslice blank_line s ≡ some i → i + 4 ≤ length s
unfolding find_subslice
find_bounds [] i e = absurd cc
find_bounds (b ∷ s) zero e = ground (arith, length-take-le 4 (b ∷ s) blank_line)
find_bounds (b ∷ s) (suc i) e = ground (arith, find_bounds s i)

pub take-append-le : (n : ℕ) (s t : Bytes) → n ≤ length s → take n (s ++ t) ≡ take n s
take-append-le zero s t h = refl
take-append-le (suc n) [] t h = elim h [ ]
take-append-le (suc n) (b ∷ s) t h = ap (◌∷◌ b) (take-append-le n s t (omega arith))

-- More bytes behind do not move what was found.
pub find-append :
    (s t : Bytes) (i : ℕ)
    → find_subslice blank_line s ≡ some i
    → find_subslice blank_line (s ++ t) ≡ some i
unfolding find_subslice
find-append [] t i e = cc
find-append (b ∷ s) t zero e =
    ground (arith, length-take-le 4 (b ∷ s) blank_line, take-append-le 4 (b ∷ s) t)
find-append (b ∷ s) t (suc i) e =
    ground (arith, find-append s t i, find_bounds s i, take-append-le 4 (b ∷ s) t)
