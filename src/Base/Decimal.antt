-- ===== src/Base/Decimal.antt =====
-- Decimal numbers: `Display` for unsigned integers and `str::parse::<usize>` on a 64-bit target.
use Prim.Native.Nat.{ℕ, zero, suc, ◌+◌, ◌-◌, ◌*◌, ◌/◌, ◌%◌, ◌^◌, ◌≤◌, ◌<◌}
use mathlib.Core.Path.{◌≡◌, refl, ◌∙◌}
use mathlib.Core.Logic.{◌≢◌}
use mathlib.Core.Bool.{true, false, ◌||◌}
use mathlib.Core.List.{[], ◌∷◌}
use mathlib.Core.Option.{Option, none, some}
use native.Mathlib.Omega.{arith}
use lspgraph.Base.Tests.{ltb, ◌==◌, if◌then◌else◌}
use lspgraph.Base.Lists.{All}
use lspgraph.Base.Texts.{Text}

abbrev pub usize_max : ℕ
usize_max = 2 ^ 64 - 1

-- The digits of `n` in front of `out`. The fuel bounds the number of digits; `n + 1` is enough.
emit : ℕ → ℕ → Text → Text
emit zero n out = out
emit (suc f) n out = elim (n == 0) [ true ↦ out | false ↦ emit f (n / 10) ((b'0' + n % 10) ∷ out) ]

unfoldable pub format : ℕ → Text
unfolding emit
format n = if n == 0 then b'0' ∷ [] else emit (suc n) n []

-- The digits that are left, behind the number `n` read so far. `checked_mul` and `checked_add` fail
-- past `usize::MAX`.
unfoldable pub scan : Text → ℕ → Option ℕ
scan [] n = some n
scan (c ∷ s) n =
    let m = n * 10 + (c - b'0') in
    if ltb c b'0' || ltb b'9' c then none else if ltb usize_max m then none else scan s m

-- A leading plus sign is accepted, and a sign alone is not a number.
unfoldable pub parse_usize : Text → Option ℕ
unfolding scan
parse_usize [] = none
parse_usize (c ∷ []) = if c == b'+' then none else scan (c ∷ []) 0
parse_usize (c ∷ d ∷ s) = if c == b'+' then scan (d ∷ s) 0 else scan (c ∷ d ∷ s) 0

abbrev pub IsDigit : ℕ → Type 0
IsDigit c = (b'0' ≤ c) × (c ≤ b'9')

emit-IsDigit : (f n : ℕ) (out : Text) → All IsDigit out → All IsDigit (emit f n out)
unfolding emit
emit-IsDigit zero n out h = h
emit-IsDigit (suc f) n out h = ground (arith, emit-IsDigit f (n / 10) ((b'0' + n % 10) ∷ out))

pub format-IsDigit : (n : ℕ) → All IsDigit (format n)
unfolding format
format-IsDigit n = ground (arith, emit-IsDigit (suc n) n [])

emit-ne-nil : (f n : ℕ) (out : Text) → out ≢ [] → emit f n out ≢ []
unfolding emit
emit-ne-nil zero n out h = h
emit-ne-nil (suc f) n out h = ground (arith, emit-ne-nil f (n / 10) ((b'0' + n % 10) ∷ out))

scan_last :
    (n : ℕ) (out : Text) → n ≤ usize_max → scan ((b'0' + n % 10) ∷ out) (n / 10) ≡ scan out n
unfolding scan
scan_last n out h = ground arith

scan-emit : (f n : ℕ) (out : Text) → n < f → n ≤ usize_max → scan (emit f n out) 0 ≡ scan out n
unfolding emit
scan-emit zero n out lt h = elim lt [ ]
scan-emit (suc f) n out lt h =
    ground (arith, scan-emit f (n / 10) ((b'0' + n % 10) ∷ out), scan_last n out)

pub format-ne-nil : (n : ℕ) → format n ≢ []
unfolding format emit
format-ne-nil n = ground (arith, emit-ne-nil n (n / 10) ((b'0' + n % 10) ∷ []))

parse_usize-scan : (s : Text) → All IsDigit s → s ≢ [] → parse_usize s ≡ scan s 0
unfolding parse_usize
parse_usize-scan [] d h = absurd (h refl)
parse_usize-scan (c ∷ []) d h = ground arith
parse_usize-scan (c ∷ e ∷ s) d h = ground arith

scan-format : (n : ℕ) → n ≤ usize_max → scan (format n) 0 ≡ some n
unfolding format scan
scan-format n h = ground (arith, scan-emit (suc n) n [])

-- What `Display` prints of a `usize`, `parse` reads back.
pub parse_usize-format : (n : ℕ) → n ≤ usize_max → parse_usize (format n) ≡ some n
parse_usize-format n h =
    parse_usize-scan (format n) (format-IsDigit n) (format-ne-nil n) ∙ scan-format n h

scan_bounds : (s : Text) (n r : ℕ) → n ≤ usize_max → scan s n ≡ some r → r ≤ usize_max
unfolding scan
scan_bounds [] n r h e = ground arith
scan_bounds (c ∷ s) n r h e = ground (arith, scan_bounds s (n * 10 + (c - b'0')) r)

pub parse_usize_bounds : (s : Text) (r : ℕ) → parse_usize s ≡ some r → r ≤ usize_max
unfolding parse_usize
parse_usize_bounds [] r e = cc
parse_usize_bounds (c ∷ []) r e = ground (arith, scan_bounds (c ∷ []) 0 r)
parse_usize_bounds (c ∷ d ∷ s) r e =
    ground (arith, scan_bounds (c ∷ d ∷ s) 0 r, scan_bounds (d ∷ s) 0 r)
