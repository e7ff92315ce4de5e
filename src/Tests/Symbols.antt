-- ===== src/Tests/Symbols.antt =====
-- The filter of the symbols at a concrete tree: a class with a method and a synthesized callback.
use lspgraph.Base.{◌&&◌, ◌||◌, leb, Text, List, [], ◌∷◌, ◌≡◌, codes, ℕ, refl, any, Text-discrete}
use lspgraph.Graph.{Position}
use lspgraph.Symbols.{
  CharTables, NamedCallable, DocumentSymbol, Children, symbol, nil, cons, is_named_callable,
  collect_symbol, collect_named_callables,
}
use lspgraph.Symbols.Collect.{preorder, callables, collect_named_callables_lem}

abbrev ascii : CharTables
ascii = record {
  is_alphabetic = λ c. (leb b'a' c && leb c b'z') || (leb b'A' c && leb c b'Z');
  is_alphanumeric =
      λ c. (leb b'a' c && leb c b'z') || (leb b'A' c && leb c b'Z') || (leb b'0' c && leb c b'9');
}

abbrev origin : Position
origin = record { line = 1; character = 3 }

abbrev uri : Text
uri = codes "file:///a.rs"

abbrev tree : Children
tree =
    cons
      (symbol (codes "Counter") 5 origin (
        cons (symbol (codes "(*counter).bump") 6 origin nil)
          (cons (symbol (codes "find() callback") 12 origin nil) nil)))
      nil

abbrev bump : NamedCallable
bump = record { name = codes "(*counter).bump"; uri = uri; position = origin }

collect_named_callables_lem_example :
    collect_named_callables ascii tree uri [] ≡ callables ascii uri (preorder tree)
collect_named_callables_lem_example = collect_named_callables_lem ascii uri tree []

-- Only the method is kept.
bump_kept : collect_named_callables ascii tree uri [] ≡ bump ∷ []
unfolding collect_named_callables collect_symbol is_named_callable lspgraph.Symbols.is_callable_name
    lspgraph.Base.all lspgraph.Base.Str.split lspgraph.Symbols.is_plain_identifier
    lspgraph.Base.Str.split_once lspgraph.Base.Str.strip_prefix
bump_kept = refl
