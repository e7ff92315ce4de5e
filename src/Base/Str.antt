-- ===== src/Base/Str.antt =====
-- Methods of `str` that the code calls: whitespace, trimming, splitting, prefixes and suffixes.
use Prim.Native.Nat.{ℕ, ◌+◌}
use mathlib.Core.Bool.{Bool, true, false, ◌&&◌, ◌||◌}
use mathlib.Core.List.{List, [], ◌∷◌, ◌++◌, map, reverse}
use mathlib.Core.Option
use mathlib.Core.Option.{Option, none, some}
use native.Mathlib.Decide.{ℕ_discrete}
use lspgraph.Base.Tests.{leb, ◌==◌, if◌then◌else◌, holds}
use lspgraph.Base.Lists.{take, drop, length}
use lspgraph.Base.Texts.{Text, Text-discrete}

-- `char::is_whitespace`: the property White_Space.
unfoldable pub is_whitespace : ℕ → Bool
is_whitespace c =
    (leb 9 c && leb c 13)
    || c == 32
    || c == 0x85
    || c == 0xa0
    || c == 0x1680
    || (leb 0x2000 c && leb c 0x200a)
    || c == 0x2028
    || c == 0x2029
    || c == 0x202f
    || c == 0x205f
    || c == 0x3000

unfoldable pub trim_start : Text → Text
trim_start [] = []
trim_start (c ∷ s) = if is_whitespace c then trim_start s else c ∷ s

unfoldable pub trim : Text → Text
unfolding trim_start is_whitespace
trim s = reverse (trim_start (reverse (trim_start s)))

unfoldable pub to_ascii_lowercase : ℕ → ℕ
to_ascii_lowercase c = if leb b'A' c && leb c b'Z' then c + 32 else c

unfoldable pub eq_ignore_ascii_case : Text → Text → Bool
unfolding to_ascii_lowercase Text-discrete ℕ_discrete
eq_ignore_ascii_case s t =
    holds (Text-discrete (map to_ascii_lowercase s) (map to_ascii_lowercase t))

-- `split_once(c)`: around the first occurrence.
unfoldable pub split_once : ℕ → Text → Option (Text × Text)
split_once c [] = none
split_once c (d ∷ s) =
    if d == c then some ([], s) else Option.map (λ p. (d ∷ p.0, p.1)) (split_once c s)

-- `split(c)` for a character: the parts between its occurrences, at least one.
abbrev pub prepend : ℕ → List Text → List Text
prepend c [] = (c ∷ []) ∷ []
prepend c (p ∷ ps) = (c ∷ p) ∷ ps

unfoldable pub split : ℕ → Text → List Text
split c [] = [] ∷ []
split c (d ∷ s) = if d == c then [] ∷ split c s else prepend d (split c s)

-- `split("\r\n")`; `cur` is the part read so far.
unfoldable pub split_crlf_from : Text → Text → List Text
split_crlf_from cur [] = cur ∷ []
split_crlf_from cur (c ∷ []) = (cur ++ c ∷ []) ∷ []
split_crlf_from cur (c ∷ d ∷ s) = elim (c == 13 && d == 10) [
  | true ↦ cur ∷ split_crlf_from [] s
  | false ↦ split_crlf_from (cur ++ c ∷ []) (d ∷ s)
]

unfoldable pub split_crlf : Text → List Text
unfolding split_crlf_from
split_crlf = split_crlf_from []

-- `strip_prefix` of a text.
unfoldable pub strip_prefix : Text → Text → Option Text
unfolding Text-discrete ℕ_discrete
strip_prefix p s =
    if holds (Text-discrete (take (length p) s) p) then some (drop (length p) s) else none

-- `strip_suffix` of a text.
unfoldable pub strip_suffix : Text → Text → Option Text
unfolding strip_prefix
strip_suffix p s = Option.map reverse (strip_prefix (reverse p) (reverse s))
