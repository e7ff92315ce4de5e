-- ===== src/Tests/Startup.antt =====
-- The start of the program at concrete inputs.
use lspgraph.Program.Run.{run}
use lspgraph.Program.Ended.{run-IsClean}
use lspgraph.Program.Session.{Turn, frame_of, worker, session}
use lspgraph.Keys.{char}
use lspgraph.Graph.{CallHierarchyItem}
use lspgraph.Symbols.{Children, symbol, function_kind}
use lspgraph.Base.{
  inl, ◌+◌, Text-discrete, ℕ, ◌≤◌, ◌↔◌, ◌≡◌, Bool, true, false, Option, none, some, List, [], ◌∷◌,
  ◌++◌, Text, codes, refl, subst, arith, suc,
}
use lspgraph.Error.{ok}
use lspgraph.Json.{Value}
use lspgraph.Config.{ServerConfig}
use lspgraph.Engine.{FilePath}
use lspgraph.Server.{ConnOps, Host, Child, LanguageServer, Pid, json, flag, kill}
use lspgraph.Program.Files.{Fs, is_text, source_files}
use lspgraph.Program.Sources.{Among, IsBelow}
use lspgraph.Program.Walk.{IsFinite, IsSorting, weigh, source_files-IsBelow, source_files-ends}
use lspgraph.Program.Servers.{Env, accept, resolve_servers_toml}
use lspgraph.Program.Resolved.{Chooses, resolve_servers_toml-Chooses}
use lspgraph.Program.Startup.{Machine, start_up}

abbrev listing : FilePath → Option (List FilePath)
listing [] = some (codes "src" ∷ codes "main.rs" ∷ codes "target" ∷ [])
listing (c ∷ path) = some []

-- A root with two directories, of which one is skipped, and a file.
abbrev small_tree : Fs
small_tree = record {
  read_dir = listing;
  is_dir = λ p. if_dir p;
  is_file = is_text (codes "main.rs");
  file_name = λ p. some p;
  extension = λ p. some (codes "rs");
  sort = λ files. files;
}
  where
    if_dir : FilePath → Bool
    if_dir p = lspgraph.Base.any (is_text p) (codes "src" ∷ codes "target" ∷ [])

abbrev depth : FilePath → ℕ
depth [] = 1
depth (c ∷ path) = 0

abbrev rust_only : List Text
rust_only = codes "rs" ∷ []

unsorted : IsSorting small_tree.sort
unsorted files q = (λ h. h, λ h. h)

source_files-IsBelow_example :
    Among (codes "main.rs") (codes "main.rs" ∷ [])
    ↔ IsBelow small_tree rust_only (codes "main.rs") []
unfolding source_files
source_files-IsBelow_example =
    source_files-IsBelow small_tree rust_only 3 [] (codes "main.rs" ∷ []) unsorted refl
      (codes "main.rs")

abbrev Weighs : ℕ → Option (List FilePath) → Type 0
Weighs n none = Unit
Weighs n (some entries) = weigh small_tree rust_only depth entries ≤ n

small_tree-IsFinite : IsFinite small_tree rust_only depth
unfolding lspgraph.Base.any lspgraph.Base.Text-discrete lspgraph.Program.Files.is_skipped
small_tree-IsFinite [] entries h = subst (Weighs 1) h (omega arith)
small_tree-IsFinite (c ∷ path) entries h = subst (Weighs 0) h (omega arith)

source_files-ends_example :
    (files : List FilePath) × (source_files small_tree 3 [] rust_only ≡ some files)
source_files-ends_example = source_files-ends small_tree rust_only depth [] small_tree-IsFinite

-- An environment in which only the user's configuration is there.
abbrev user_env : Env
user_env = record {
  windows = false;
  var_os = λ name. none;
  current_dir = none;
  join = λ p t. p ++ (codes "/" ++ t);
  is_file = is_text (codes "/home/servers.toml");
  display = λ p. p;
}

resolve_servers_toml-Chooses_example :
    Chooses user_env
      (codes "servers.toml" ∷ codes "/home/servers.toml" ∷ [])
      (accept (codes "/home/servers.toml"))
unfolding resolve_servers_toml lspgraph.Base.Text-discrete
resolve_servers_toml-Chooses_example =
    resolve_servers_toml-Chooses user_env none (codes "servers.toml")
      (some (codes "/home/servers.toml"))

abbrev rust_server : ServerConfig
rust_server = record {
  cmd = codes "rust-analyzer";
  extensions = rust_only;
  ready_timeout_secs = 2;
  concurrency = 1;
}

abbrev machine : Machine
machine = record {
  env = record user_env { is_file = is_text (codes "servers.toml") };
  fs = small_tree;
  canonicalize = λ p. accept [];
  read_to_string = λ p. accept [];
  from_str = λ text. inl (record { servers = (codes "rust", rust_server) ∷ [] });
  debug = λ t. t;
  is_terminal = true;
}

-- A connection that offers the call hierarchy; its state is the time.
abbrev able : ConnOps ℕ
able = record {
  connect = λ child. 0;
  request = λ t method params d.
      (t, ok (json ((codes "capabilities", flag (codes "callHierarchyProvider") true) ∷ [])));
  notify = λ t method params. (t, ok tt);
  sleep = λ t d. t + d;
}

-- A host whose documents have no symbols.
abbrev no_symbols : Host
no_symbols = record {
  spawn = λ prog args root. ok (record { pid = 7; has_stdout = true; has_stdin = true });
  process_id = 1;
  read_to_string = λ path. ok [];
  path_to_uri = λ path. path;
  parse_url = λ t. some t;
  tables = record { is_alphabetic = λ c. true; is_alphanumeric = λ c. true };
  items_of = λ v. ok [];
  item_of = λ v. none;
  item_value = λ item. Value.null;
  position_value = λ p. Value.null;
  symbols_of = λ v. none;
}

-- A host whose documents have one function, which has a call hierarchy.
abbrev one_function : Host
one_function = record no_symbols {
  items_of = λ v. ok (main_item ∷ []);
  symbols_of = λ v. some (
      Children.cons (symbol (codes "main") function_kind main_item.selection_start Children.nil)
        Children.nil);
}
  where
    main_item : CallHierarchyItem
    main_item = record {
      name = codes "main";
      kind = function_kind;
      detail = none;
      uri = codes "main.rs";
      selection_start = record { line = 1; character = 2 };
      others = [];
    }

-- The process that is spawned has the number 7, and 3 runs before.
seven_is_new :
    (prog : Text) (args : List Text) (root : FilePath) (child : Child)
    → one_function.spawn prog args root ≡ ok child
    → kill child.pid (3 ∷ []) ≡ 3 ∷ []
unfolding kill lspgraph.Base.retain
seven_is_new prog args root child h =
    let seven : Child = record { pid = 7; has_stdout = true; has_stdin = true } in
    let same : seven ≡ child = cc in subst (λ c. kill c.pid (3 ∷ []) ≡ 3 ∷ []) same refl

-- A letter, the worker, and the keys that quit.
abbrev quitting : List Turn
quitting =
    frame_of 1 false (some (record { code = char b'x'; control = false }))
    ∷ worker
    ∷ frame_of 1 false (some (record { code = char b'c'; control = true }))
    ∷ []

run-IsClean_example : ◌≡◌ {A = List Pid} (3 ∷ []) (3 ∷ [])
unfolding run start_up session lspgraph.Readiness.even_stride lspgraph.Readiness.from_server_config
    lspgraph.Server.Calls.open_file lspgraph.Server.Calls.document_symbols
    lspgraph.Symbols.is_named_callable lspgraph.Symbols.is_callable_name lspgraph.Base.all
    lspgraph.Base.Str.split lspgraph.Symbols.is_plain_identifier
    lspgraph.Server.Calls.prepare_call_hierarchy lspgraph.Keys.search_key
    lspgraph.App.push_query_char
run-IsClean_example =
    run-IsClean able one_function (λ url. some url) (λ n. []) (λ t. t) machine 3
      (codes "rust" ∷ codes "." ∷ []) quitting none (3 ∷ []) (3 ∷ [])
      (record { status = 0; printed = none }) seven_is_new refl
