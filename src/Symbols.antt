-- ===== src/Symbols.antt =====
-- crates/lspgraph-core/src/symbols.rs: which declarations are named callables.
pub mod Collect
pub mod Workspace
use lspgraph.Base.{
  ℕ, Bool, true, false, not, ◌&&◌, ◌||◌, Option, none, some, List, [], ◌∷◌, ◌++◌, Text, ◌==◌,
  if◌then◌else◌, all, is_empty, codes,
}
use lspgraph.Base.Str.{split_once, split, strip_prefix, strip_suffix}
use lspgraph.Graph.{Position}

-- The Unicode tables behind `char::is_alphabetic` and `char::is_alphanumeric`.
pub record CharTables : Type 0 where
  pub is_alphabetic : ℕ → Bool
  pub is_alphanumeric : ℕ → Bool

abbrev pub Url : Type 0
Url = Text

-- `lsp_types::SymbolKind`, the number that the protocol gives to a kind.
abbrev pub SymbolKind : Type 0
SymbolKind = ℕ

abbrev pub method_kind : SymbolKind
method_kind = 6

-- `function_kind`.
abbrev pub function_kind : SymbolKind
function_kind = 12

pub record NamedCallable : Type 0 where
  pub name : Text
  pub uri : Url
  pub position : Position

-- A symbol found by a repository-wide search.
pub record SymbolMatch : Type 0 where
  pub name : Text
  pub container : Option Text
  pub uri : Url
  pub position : Position
  pub kind : SymbolKind

-- `NamedCallable::from(&SymbolMatch)`.
unfoldable pub to_named_callable : SymbolMatch → NamedCallable
to_named_callable m = record { name = m.name; uri = m.uri; position = m.position }

-- `unwrap_or` on an optional text.
abbrev pub or_else : Text → Option Text → Text
or_else t none = t
or_else t (some s) = s

-- `undecorate`: drops a trailing "()".
unfoldable pub undecorate : Text → Text
undecorate name = or_else name (strip_suffix (codes "()") name)

mutual
  pub data DocumentSymbol : Type 0 where
    symbol : Text → SymbolKind → Position → Children → DocumentSymbol

  -- No `children` and an empty list of them are not told apart.
  pub data Children : Type 0 where
    nil : Children
    cons : DocumentSymbol → Children → Children

module _ (tables : CharTables) where
  open tables use {is_alphabetic, is_alphanumeric}

  abbrev pub starts_identifier : ℕ → Bool
  starts_identifier c = is_alphabetic c || c == b'_' || c == b'$'

  abbrev pub continues_identifier : ℕ → Bool
  continues_identifier c = is_alphanumeric c || c == b'_' || c == b'$'

  -- A single unqualified segment.
  unfoldable pub is_plain_identifier : Text → Bool
  is_plain_identifier [] = false
  is_plain_identifier (first ∷ chars) =
      if not (starts_identifier first) then false else all continues_identifier chars

  -- The segments between the dots.
  unfoldable pub is_dotted : Text → Bool
  is_dotted rest = not (is_empty rest) && all is_plain_identifier (split b'.' rest)

  -- Behind a leading parenthesis: the receiver, a dot, and the segments.
  unfoldable pub is_received : Text → Bool
  is_received after = elim (split_once b')' after) [
    | none ↦ false
    | some (before, behind) ↦
        if not (is_plain_identifier (or_else before (strip_prefix (b'*' ∷ []) before)))
        then false
        else is_dotted (or_else [] (strip_prefix (b'.' ∷ []) behind))
  ]

  unfoldable pub is_callable_name : Text → Bool
  unfolding is_received is_dotted
  is_callable_name [] = is_dotted []
  is_callable_name (c ∷ after) = if c == b'(' then is_received after else is_dotted (c ∷ after)

  unfoldable pub is_named_callable : Text → SymbolKind → Bool
  is_named_callable name kind =
      if not (kind == function_kind) && not (kind == method_kind)
      then false
      else is_callable_name name

  unfoldable mutual
    pub collect_symbol : DocumentSymbol → Url → List NamedCallable → List NamedCallable
    collect_symbol (symbol name kind position children) uri out =
        collect_named_callables children uri (
          if is_named_callable name kind
          then out ++ record { name = name; uri = uri; position = position } ∷ []
          else out)

    pub collect_named_callables : Children → Url → List NamedCallable → List NamedCallable
    collect_named_callables nil uri out = out
    collect_named_callables (cons s symbols) uri out =
        collect_named_callables symbols uri (collect_symbol s uri out)
