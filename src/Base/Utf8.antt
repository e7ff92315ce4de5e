-- ===== src/Base/Utf8.antt =====
-- `str::from_utf8` and the methods of `str` that the code calls, over scalar values.
use Prim.Native.Nat.{ℕ, zero, suc, ◌+◌, ◌-◌, ◌*◌, ◌<◌}
use mathlib.Core.Path.{◌≡◌, refl}
use mathlib.Core.Bool.{Bool, ◌&&◌}
use mathlib.Core.List.{List, [], ◌∷◌, map}
use mathlib.Core.Option.{Option, none, some}
use native.Mathlib.Omega.{arith}
use lspgraph.Base.Tests.{ltb, leb, ◌==◌, if◌then◌else◌}
use lspgraph.Base.Lists.{All}
use lspgraph.Base.Texts.{Text, Bytes}

abbrev between : ℕ → ℕ → ℕ → Bool
between lo hi b = leb lo b && leb b hi

-- A decoder between two bytes: how many continuation bytes are due, the range of the next one, and
-- the bits so far.
record Utf8State : Type 0 where
  due : ℕ
  low : ℕ
  high : ℕ
  bits : ℕ

abbrev idle : Utf8State
idle = record { due = 0; low = 0x80; high = 0xbf; bits = 0 }

abbrev expect : ℕ → ℕ → ℕ → ℕ → Option (Option ℕ × Utf8State)
expect due low high bits = some (none, record { due = due; low = low; high = high; bits = bits })

-- The first byte of a sequence. The ranges rule out overlong forms, surrogates and values past
-- 0x10FFFF.
lead : ℕ → Option (Option ℕ × Utf8State)
lead b =
    if ltb b 0x80
    then some (some b, idle)
    else if between 0xc2 0xdf b
    then expect 1 0x80 0xbf (b - 0xc0)
    else if b == 0xe0
    then expect 2 0xa0 0xbf 0
    else if b == 0xed
    then expect 2 0x80 0x9f 0xd
    else if between 0xe1 0xef b
    then expect 2 0x80 0xbf (b - 0xe0)
    else if b == 0xf0
    then expect 3 0x90 0xbf 0
    else if between 0xf1 0xf3 b
    then expect 3 0x80 0xbf (b - 0xf0)
    else if b == 0xf4
    then expect 3 0x80 0x8f 4
    else none

-- A byte that continues a sequence.
continuation : ℕ → Utf8State → ℕ → Option (Option ℕ × Utf8State)
continuation left st b =
    let bits = st.bits * 64 + (b - 0x80) in
    if between st.low st.high b
    then (if left == 0 then some (some bits, idle) else expect left 0x80 0xbf bits)
    else none

feed : ℕ → Utf8State → ℕ → Option (Option ℕ × Utf8State)
unfolding lead continuation
feed zero st b = lead b
feed (suc left) st b = continuation left st b

abbrev emit : Option ℕ → Option Text → Option Text
emit (some c) (some t) = some (c ∷ t)
emit c rest = rest

decode : Bytes → Utf8State → Option Text
unfolding feed
decode [] st = if st.due == 0 then some [] else none
decode (b ∷ s) st = elim (feed st.due st b) [ none ↦ none | some (c, st') ↦ emit c (decode s st') ]

unfoldable pub from_utf8 : Bytes → Option Text
unfolding decode
from_utf8 s = decode s idle

abbrev pub IsAscii : Bytes → Type 0
IsAscii = All (λ b. b < 128)

-- ASCII bytes are their own scalar values.
pub from_utf8_ascii : (s : Bytes) → IsAscii s → from_utf8 s ≡ some s
unfolding from_utf8
from_utf8_ascii [] h = refl
from_utf8_ascii (b ∷ s) h = ground (arith, from_utf8_ascii s h.1)

-- U+00E9, U+20AC, U+1F600; an overlong slash; a surrogate; a cut sequence.
samples : List (Option Text)
samples = map from_utf8 (
    (0xc3 ∷ 0xa9 ∷ [])
    ∷ (0xe2 ∷ 0x82 ∷ 0xac ∷ [])
    ∷ (0xf0 ∷ 0x9f ∷ 0x98 ∷ 0x80 ∷ [])
    ∷ (0xc0 ∷ 0xaf ∷ [])
    ∷ (0xed ∷ 0xa0 ∷ 0x80 ∷ [])
    ∷ (0xe2 ∷ 0x82 ∷ [])
    ∷ [])

samples_decoded :
    samples ≡ some (0xe9 ∷ []) ∷ some (0x20ac ∷ []) ∷ some (0x1f600 ∷ []) ∷ none ∷ none ∷ none ∷ []
unfolding samples from_utf8
samples_decoded = refl
