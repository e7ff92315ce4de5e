-- ===== src/Tests/Process.antt =====
-- The server's process, the readiness and the cache at concrete inputs.
use lspgraph.Base.{
  ℕ, ◌+◌, ◌*◌, ◌≤◌, ◌<◌, ◌^◌, ◌↔◌, ◌≡◌, ◌≢◌, ◌++◌, ◌/◌, subst, ap, refl, arith, Option, none, some,
  List, [], ◌∷◌, Bytes, Text, codes, length, All, min, take, drop, Bool, true, false, if◌then◌else◌,
  ◌==◌,
}
use lspgraph.Error.{ok, err, content_modified}
use lspgraph.Json.{Value}
use lspgraph.Config.{ServerConfig}
use lspgraph.Server.{ConnOps, Host, Child, LanguageServer, Pid}
use lspgraph.Server.Calls.{start}
use lspgraph.Server.Lifecycle.{IsClean, start-IsClean}
use lspgraph.Readiness.{even_stride}
use lspgraph.Cache.{written, CacheFile, Crates, Disk, load, save, cache_path}
use lspgraph.Cache
use lspgraph.Cache.Saved.{load-save}
use lspgraph.Graph
use lspgraph.Readiness.Stride.{IsEven, even_stride-IsEven}

-- A connection that counts its requests and answers each with modified content.
abbrev busy : ConnOps ℕ
busy = record {
  connect = λ child. 0;
  request = λ n method params t. (n + 1, err (content_modified method));
  notify = λ n method params. (n, ok tt);
  sleep = λ n d. n;
}

abbrev host : Host
host = record {
  spawn = λ prog args root. ok (record { pid = 7; has_stdout = true; has_stdin = true });
  process_id = 1;
  read_to_string = λ path. ok [];
  path_to_uri = λ path. path;
  parse_url = λ t. some t;
  tables = record { is_alphabetic = λ c. true; is_alphanumeric = λ c. true };
  items_of = λ v. ok [];
  item_of = λ v. none;
  item_value = λ item. Value.null;
  position_value = λ p. Value.null;
  symbols_of = λ v. none;
}

abbrev server : LanguageServer ℕ
server = record {
  name = codes "rust";
  root = codes "/repo";
  conn = 0;
  child = some 7;
  supports_workspace_symbol = true;
}

abbrev config : ServerConfig
config = record {
  cmd = codes "rust-analyzer --stdio";
  extensions = codes "rs" ∷ [];
  ready_timeout_secs = 300;
  concurrency = 1;
}

always_seven :
    (prog : Text) (args : List Text) (child : Child)
    → host.spawn prog args (codes "/repo") ≡ ok child
    → lspgraph.Server.kill child.pid (3 ∷ []) ≡ 3 ∷ []
unfolding lspgraph.Server.kill lspgraph.Base.retain
always_seven prog args child spawned =
    let seven : Child = record { pid = 7; has_stdout = true; has_stdin = true } in
    let same : seven ≡ child = cc in
    subst (λ c. lspgraph.Server.kill c.pid (3 ∷ []) ≡ 3 ∷ []) same refl

start-IsClean_example :
    IsClean busy host (3 ∷ []) (start busy host (codes "rust") config (codes "/repo") (3 ∷ []))
start-IsClean_example =
    start-IsClean busy host (codes "rust") config (codes "/repo") (3 ∷ []) always_seven

abbrev three : List ℕ
three = 1 ∷ 2 ∷ 3 ∷ []

-- Two samples of three.
even_stride-IsEven_example : IsEven three 2 (even_stride three 2)
even_stride-IsEven_example = even_stride-IsEven three 2 (omega arith) (omega arith) (omega arith)

abbrev cache : CacheFile
cache = Cache.new lspgraph.Graph.new

-- A codec that knows one cache.
abbrev crates : Crates
crates = record {
  sha256 = λ b. b;
  to_vec = λ c. [];
  from_slice = λ b. some cache;
  cache_dir = codes "/cache";
  as_bytes = λ t. t;
  join = λ p t. p ++ t;
  path_to_uri = λ p. p;
}

abbrev disk : Disk
disk = record { files = []; write_end = written }

load-save_example :
    load crates (save crates disk (codes "/repo") cache).0 (codes "/repo") ≡ some cache
load-save_example = load-save crates disk (codes "/repo") cache refl refl
