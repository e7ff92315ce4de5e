-- ===== src/Ui/Shown.antt =====
-- What the screens show: the marked row is the one a key acts on, and an empty list stands only for
-- an expansion that found nothing.
use lspgraph.Base.{
  ℕ, zero, suc, ◌+◌, ◌==◌, Bool, true, false, some, List, [], ◌∷◌, ◌≡◌, ◌↔◌, refl, arith, get_elem?,
  is_empty, Option-cases, inl, inr,
}
use lspgraph.Graph.{Node}
use lspgraph.Symbols.{SymbolMatch}
use lspgraph.Protocol.{Request}
use lspgraph.App.{App, chosen_match, is_pending, expansion_failed}
use lspgraph.Ui.Search.{Row, rows, match_text, match_rows, search_body}
use lspgraph.Ui.Graph.{node_rows, side}

get_elem?-match_rows :
    (sel i k : ℕ) (ms : List SymbolMatch) (m : SymbolMatch)
    → get_elem? ms k ≡ some m
    → get_elem? (match_rows sel i ms) k
      ≡ some (record { text = match_text m; reversed = (i + k) == sel })
unfolding match_rows
get_elem?-match_rows sel i k [] m h = ground arith
get_elem?-match_rows sel i zero (n ∷ ms) m h = ground arith
get_elem?-match_rows sel i (suc k) (n ∷ ms) m h =
    ground (arith, get_elem?-match_rows sel (i + 1) k ms m h)

chosen_match_lem :
    (a : App) (m : SymbolMatch)
    → chosen_match a ≡ some (Request.seed m)
    → get_elem? a.matches a.match_sel ≡ some m
unfolding chosen_match
chosen_match_lem a m chosen = elim (Option-cases (get_elem? a.matches a.match_sel)) [
  | inl missing ↦ (let c = rw (missing, chosen_match) at chosen in absurd cc)
  | inr (n, there) ↦ let c = rw (there, chosen_match) at chosen in cc
]

not_empty :
    (ms : List SymbolMatch) (k : ℕ) (m : SymbolMatch)
    → get_elem? ms k ≡ some m
    → is_empty ms ≡ false
not_empty [] k m h = ground arith
not_empty (n ∷ ms) k m h = refl

-- Where the server can search and Enter would seed a match, the search screen lists every match in
-- its place, and marks the one that Enter would seed and no other.
pub search_body-chosen_match :
    (a : App) (m n : SymbolMatch) (k : ℕ)
    → a.can_search ≡ true
    → chosen_match a ≡ some (Request.seed m)
    → get_elem? a.matches k ≡ some n
    → (get_elem? a.matches a.match_sel ≡ some m)
      × (rs : List Row) × (search_body a ≡ rows rs)
      × (get_elem? rs k ≡ some (record { text = match_text n; reversed = k == a.match_sel }))
unfolding search_body chosen_match
search_body-chosen_match a m n k able chosen at_k =
    let there = chosen_match_lem a m chosen in
    (
      there,
      match_rows a.match_sel 0 a.matches,
      ground (arith, not_empty a.matches a.match_sel m there),
      ground (arith, get_elem?-match_rows a.match_sel 0 k a.matches n at_k),
    )

-- A side pane of the graph is empty exactly if nothing is loading, the expansion of the node in the
-- centre has not failed, and there is no node to list.
side-empty :
    (a : App) (nodes : List Node) (active : Bool) (sel : ℕ)
    → ((side a nodes active sel).items ≡ [])
      ↔ ((is_pending a ≡ false) × (expansion_failed a ≡ false) × (nodes ≡ []))
unfolding side node_rows
side-empty a [] active sel = ground arith
side-empty a (n ∷ nodes) active sel = ground arith
