-- ===== src/Codec/Header.antt =====
-- The header that `encode` writes is read back.
use mathlib.Core.List.{reverse, reverse-cons, reverse-reverse}
use lspgraph.Base.{
  ◌∙◌, ap, ℕ, ◌≤◌, ◌<◌, true, false, none, some, [], ◌∷◌, ◌++◌, Text, codes, ◌≡◌, ◌≢◌, refl, arith,
  All, All-append, append_assoc, append-nil,
}
use lspgraph.Base.Decimal.{format, usize_max, IsDigit, format-IsDigit, parse_usize-format}
use lspgraph.Base.Utf8.{from_utf8, from_utf8_ascii, IsAscii}
use lspgraph.Base.Str.{
  is_whitespace, trim_start, trim, eq_ignore_ascii_case, split_once, split_crlf_from, split_crlf,
}
use lspgraph.Codec.{header_name, read_line, read_lines, read_header, length_found}

abbrev IsSolid : ℕ → Type 0
IsSolid c = is_whitespace c ≡ false

trim_start_solid : (s : Text) → All IsSolid s → trim_start s ≡ s
unfolding trim_start
trim_start_solid [] a = refl
trim_start_solid (c ∷ s) a = ground arith

All-reverse : (s : Text) → All IsSolid s → All IsSolid (reverse s)
All-reverse [] a = tt
All-reverse (c ∷ s) (p, a) =
    rw (reverse-cons c s) (All-append IsSolid (reverse s) (c ∷ []) (All-reverse s a) (p, tt))

trim_solid : (s : Text) → All IsSolid s → trim s ≡ s
unfolding trim
trim_solid s a =
    rw (trim_start_solid s a, trim_start_solid (reverse s) (All-reverse s a)) (reverse-reverse s)

digit-IsSolid : (c : ℕ) → IsDigit c → IsSolid c
unfolding is_whitespace
digit-IsSolid c d = ground arith

All-IsSolid : (s : Text) → All IsDigit s → All IsSolid s
All-IsSolid [] a = tt
All-IsSolid (c ∷ s) (d, a) = (digit-IsSolid c d, All-IsSolid s a)

-- A value behind a space.
trim_value : (s : Text) → All IsDigit s → trim (32 ∷ s) ≡ s
unfolding trim trim_start is_whitespace
trim_value s a = trim_solid s (All-IsSolid s a)

split_crlf_single : (cur s : Text) → All (λ c. c ≢ 13) s → split_crlf_from cur s ≡ (cur ++ s) ∷ []
unfolding split_crlf_from
split_crlf_single cur [] a = rw append-nil
split_crlf_single cur (c ∷ []) a = refl
split_crlf_single cur (c ∷ d ∷ s) a =
    ground (arith, split_crlf_single (cur ++ c ∷ []) (d ∷ s), append_assoc cur (c ∷ []) (d ∷ s))

All-impl : (P Q : ℕ → Type 0) → ((c : ℕ) → P c → Q c) → (s : Text) → All P s → All Q s
All-impl P Q f [] a = tt
All-impl P Q f (c ∷ s) (p, a) = (f c p, All-impl P Q f s a)

pub header-no_return : (n : ℕ) → All (λ c. c ≢ 13) (header_name ++ format n)
header-no_return n =
    All-append (λ c. c ≢ 13) header_name (format n) (omega arith)
      (All-impl IsDigit (λ c. c ≢ 13) (λ c d. omega arith) (format n) (format-IsDigit n))

header-IsAscii : (n : ℕ) → IsAscii (header_name ++ format n)
header-IsAscii n =
    All-append (λ c. c < 128) header_name (format n) (omega arith)
      (All-impl IsDigit (λ c. c < 128) (λ c d. omega arith) (format n) (format-IsDigit n))

key_accepted : eq_ignore_ascii_case (trim (codes "Content-Length")) (codes "content-length") ≡ true
unfolding trim trim_start is_whitespace eq_ignore_ascii_case
key_accepted = refl

read_line-header :
    (n : ℕ) → n ≤ usize_max → read_line (header_name ++ format n) none ≡ some (some n)
unfolding read_line split_once
read_line-header n h = rw (key_accepted, trim_value _ (format-IsDigit n), parse_usize-format n h)

read_header_text :
    (h t : Text) → from_utf8 h ≡ some t → read_header h ≡ read_lines (split_crlf t) none
unfolding read_header
read_header_text h t e = ground arith

read_lines_single :
    (line : Text) (n : ℕ)
    → read_line line none ≡ some (some n)
    → read_lines (line ∷ []) none ≡ length_found n
unfolding read_lines
read_lines_single line n e = ground arith

pub read_header-format :
    (n : ℕ) → n ≤ usize_max → read_header (header_name ++ format n) ≡ length_found n
unfolding split_crlf
read_header-format n h =
    let line = header_name ++ format n in
    read_header_text line line (from_utf8_ascii line (header-IsAscii n))
    ∙ ap (λ ls. read_lines ls none) (split_crlf_single [] line (header-no_return n))
    ∙ read_lines_single line n (read_line-header n h)
