-- ===== src/Server/Probe.antt =====
-- What the readiness of crates/lspgraph-core/src/readiness.rs asks of a language server, from the
-- server of crates/lspgraph-core/src/server.rs and the clock.
use lspgraph.Base.{Option}
use lspgraph.Error.{Duration}
use lspgraph.Symbols.{Url}
use lspgraph.Engine.{FilePath}
use lspgraph.Server.{ConnOps, Host, LanguageServer}
use lspgraph.Server.Calls.{open_file, document_symbols, prepare_call_hierarchy}
use lspgraph.Readiness.Wait.{ProbeOps}

module _ {S : Type 0} (ops : ConnOps S) (host : Host) where
  abbrev pub probe : (S → Duration) → (Url → Option FilePath) → ProbeOps (LanguageServer S)
  probe now to_file_path = record {
    now = λ server. now server.conn;
    sleep = λ server d. record server { conn = ops.sleep server.conn d };
    open_file = open_file ops host;
    document_symbols = document_symbols ops host;
    prepare_call_hierarchy = prepare_call_hierarchy ops host;
    path_to_uri = host.path_to_uri;
    to_file_path = to_file_path;
    tables = host.tables;
  }
