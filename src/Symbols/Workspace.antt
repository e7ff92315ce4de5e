-- ===== src/Symbols/Workspace.antt =====
-- crates/lspgraph-core/src/symbols.rs: `parse_workspace_symbols`, the results of a search.
use lspgraph.Base.{ℕ, ◌%◌, ◌^◌, Option, none, some, List, [], ◌∷◌, Text, codes, ◌==◌, if◌then◌else◌}
use lspgraph.Json.{Value, get, as_str, as_u64, as_array, ◌>>=◌, unwrap_or}
use lspgraph.Symbols.{
  CharTables, Url, SymbolKind, SymbolMatch, method_kind, function_kind, undecorate,
  is_named_callable,
}

-- The kinds that are kept.
unfoldable pub kind_of : ℕ → Option SymbolKind
kind_of n = if n == 6 then some method_kind else if n == 12 then some function_kind else none

-- `as u32`.
abbrev pub as_u32 : ℕ → ℕ
as_u32 n = n % 2 ^ 32

unfoldable pub coordinate : Option Value → Text → ℕ
coordinate start key = as_u32 (unwrap_or 0 (start >>= (λ s. get s key) >>= as_u64))

abbrev pub not_empty : Text → Option Text
not_empty [] = none
not_empty (c ∷ s) = some (c ∷ s)

-- `Url::parse` gives the normal form of a URL, or nothing.
module _ (tables : CharTables) (parse_url : Text → Option Url) where
  -- The part behind the test of the name.
  unfoldable pub locate : Value → Text → SymbolKind → Option SymbolMatch
  unfolding coordinate
  locate e name kind = do
    loc ← get e (codes "location")
    text ← get loc (codes "uri") >>= as_str
    uri ← parse_url text
    let start = get loc (codes "range") >>= (λ r. get r (codes "start"))
    some (record {
      name = name;
      container = get e (codes "containerName") >>= as_str >>= not_empty;
      uri = uri;
      position = record {
        line = coordinate start (codes "line");
        character = coordinate start (codes "character");
      };
      kind = kind;
    })

  unfoldable pub parse_symbol : Value → Option SymbolMatch
  unfolding locate undecorate kind_of
  parse_symbol e = do
    raw_name ← get e (codes "name") >>= as_str
    let name = undecorate raw_name
    kind_n ← get e (codes "kind") >>= as_u64
    kind ← kind_of kind_n
    if is_named_callable tables name kind then locate e name kind else none

  -- `filter_map`.
  unfoldable pub parse_symbols : List Value → List SymbolMatch
  unfolding parse_symbol
  parse_symbols [] = []
  parse_symbols (e ∷ es) = elim (parse_symbol e) [
    | none ↦ parse_symbols es
    | some m ↦ m ∷ parse_symbols es
  ]

  unfoldable pub parse_workspace_symbols : Value → List SymbolMatch
  unfolding parse_symbols
  parse_workspace_symbols v = elim (as_array v) [ none ↦ [] | some arr ↦ parse_symbols arr ]
