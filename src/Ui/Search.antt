-- ===== src/Ui/Search.antt =====
-- crates/lspgraph-tui/src/ui/search.rs: the screen of the repository-wide search.
use lspgraph.Base.{
  ℕ, ◌+◌, ◌==◌, Bool, not, ◌&&◌, List, [], ◌∷◌, ◌++◌, Text, codes, if◌then◌else◌, is_empty,
}
use lspgraph.Symbols.{SymbolMatch, or_else}
use lspgraph.App.{App}

abbrev pub no_search_msg : Text
no_search_msg = codes "this language server does not support workspace symbol search"

abbrev pub no_matches_msg : Text
no_matches_msg = codes "no matches among the files opened so far"

abbrev pub idle_hint : Text
idle_hint = codes "type a symbol name, then press Enter to search"

abbrev pub key_hint : Text
key_hint = codes "Enter search · ↑/↓ select · Esc back · ctrl-c quit"

-- A line of a list and whether it is drawn reversed.
pub record Row : Type 0 where
  pub text : Text
  pub reversed : Bool

pub data Body : Type 0 where
  message : Text → Body
  rows : List Row → Body

pub record SearchView : Type 0 where
  pub prompt : Text
  pub body : Body
  pub hint : Text

unfoldable pub match_text : SymbolMatch → Text
match_text m =
    let place = or_else [] m.container in
    if is_empty place then m.name else m.name ++ (codes "  (" ++ (place ++ codes ")"))

-- `enumerate().map(..)`, from the index `i` on.
unfoldable pub match_rows : ℕ → ℕ → List SymbolMatch → List Row
unfolding match_text
match_rows sel i [] = []
match_rows sel i (m ∷ ms) =
    record { text = match_text m; reversed = i == sel } ∷ match_rows sel (i + 1) ms

unfoldable pub search_body : App → Body
unfolding match_rows
search_body a =
    if not a.can_search
    then message no_search_msg
    else if a.searched && is_empty a.matches
    then message no_matches_msg
    else if is_empty a.matches
    then message (
        if is_empty a.query
        then idle_hint
        else codes "press Enter to search for \"" ++ (a.query ++ codes "\""))
    else rows (match_rows a.match_sel 0 a.matches)

unfoldable pub draw_search : App → SearchView
unfolding search_body
draw_search a = record { prompt = codes "> " ++ a.query; body = search_body a; hint = key_hint }
