-- ===== src/Symbols/Collect.antt =====
-- `collect_named_callables` against its specification.
use lspgraph.Base.{
  Bool, arith, List, [], ◌∷◌, ◌++◌, ◌≡◌, refl, sym, ◌∙◌, ap, append_assoc, append-nil,
  if◌then◌else◌, Bool-cases, inl, inr,
}
use lspgraph.Symbols.{
  CharTables, Url, NamedCallable, DocumentSymbol, Children, symbol, nil, cons, is_named_callable,
  collect_symbol, collect_named_callables,
}

-- Every symbol of a tree, a parent before its children.
unfoldable mutual
  pub preorder_symbol : DocumentSymbol → List DocumentSymbol
  preorder_symbol (symbol name kind position children) =
      symbol name kind position children ∷ preorder children

  pub preorder : Children → List DocumentSymbol
  preorder nil = []
  preorder (cons s symbols) = preorder_symbol s ++ preorder symbols

module _ (tables : CharTables) (uri : Url) where
  abbrev pub is_collected : DocumentSymbol → Bool
  is_collected (symbol name kind position children) = is_named_callable tables name kind

  abbrev pub callable_of : DocumentSymbol → NamedCallable
  callable_of (symbol name kind position children) = record {
    name = name;
    uri = uri;
    position = position;
  }

  -- The callables among a list of symbols.
  abbrev pub callables : List DocumentSymbol → List NamedCallable
  callables [] = []
  callables (s ∷ ss) = if is_collected s then callable_of s ∷ callables ss else callables ss

  callables-append :
      (xs ys : List DocumentSymbol) → callables (xs ++ ys) ≡ callables xs ++ callables ys
  callables-append [] ys = refl
  callables-append (x ∷ xs) ys = ground (arith, callables-append xs ys)

  mutual
    unfolding collect_symbol collect_named_callables preorder preorder_symbol

    collect_symbol_lem :
        (s : DocumentSymbol) (out : List NamedCallable)
        → collect_symbol tables s uri out ≡ out ++ callables (preorder_symbol s)
    collect_symbol_lem (symbol name kind position children) out =
        let c : NamedCallable = record { name = name; uri = uri; position = position } in
        elim (Bool-cases (is_named_callable tables name kind)) [
          | inl kept ↦ rw kept (
              collect_children children (out ++ c ∷ [])
              ∙ append_assoc out (c ∷ []) (callables (preorder children)))
          | inr other ↦ rw other (collect_children children out)
        ]

    collect_children :
        (symbols : Children) (out : List NamedCallable)
        → collect_named_callables tables symbols uri out ≡ out ++ callables (preorder symbols)
    collect_children nil out = sym (append-nil out)
    collect_children (cons s symbols) out =
        collect_children symbols (collect_symbol tables s uri out)
        ∙ ap (λ o. o ++ callables (preorder symbols)) (collect_symbol_lem s out)
        ∙ append_assoc out (callables (preorder_symbol s)) (callables (preorder symbols))
        ∙ ap (λ o. out ++ o) (sym (callables-append (preorder_symbol s) (preorder symbols)))

  -- Collecting appends to what is there the named callables of the trees, each once, in the order
  -- of the trees with every parent before its children.
  pub collect_named_callables_lem :
      (symbols : Children) (out : List NamedCallable)
      → collect_named_callables tables symbols uri out ≡ out ++ callables (preorder symbols)
  collect_named_callables_lem symbols out = collect_children symbols out
