-- ===== src/Error.antt =====
-- crates/lspgraph-core/src/error.rs: the errors and their messages. A `Duration` is its number of
-- nanoseconds, and an error of the input, the JSON or the TOML library is its message.
use lspgraph.Base.{◌≡◌, refl, ◌⊎◌, inl, inr, ℕ, ◌/◌, ◌*◌, ◌^◌, ◌++◌, Text, codes}
use lspgraph.Base.Decimal.{format}

abbrev pub Duration : Type 0
Duration = ℕ

abbrev pub from_millis : ℕ → Duration
from_millis n = n * 10 ^ 6

abbrev pub from_secs : ℕ → Duration
from_secs n = n * 10 ^ 9

abbrev pub as_millis : Duration → ℕ
as_millis d = d / 10 ^ 6

abbrev pub as_secs : Duration → ℕ
as_secs d = d / 10 ^ 9

pub data Error : Type 0 where
  io : Text → Error
  json : Text → Error
  protocol : Text → Error
  content_modified : Text → Error
  config : Text → Error
  no_call_hierarchy : Text → Error
  timeout : Text → Duration → Error
  server_exited : Error
  not_ready : Duration → ℕ → Error
  no_candidates : ℕ → ℕ → Error

-- The `Display` that `thiserror` derives from the messages.
unfoldable pub to_string : Error → Text
unfolding format
to_string (io e) = codes "io: " ++ e
to_string (json e) = codes "json: " ++ e
to_string (protocol m) = codes "protocol: " ++ m
to_string (content_modified method) =
    method ++ codes ": server reported content modified (transient)"
to_string (config m) = codes "config: " ++ m
to_string (no_call_hierarchy server) =
    codes "language server " ++ (server ++ codes " does not advertise callHierarchyProvider")
to_string (timeout method t) =
    codes "request "
    ++ (method ++ (codes " timed out after " ++ (format (as_millis t) ++ codes "ms")))
to_string server_exited = codes "language server exited"
to_string (not_ready t tried) =
    codes "server not ready after "
    ++ (format (as_secs t) ++ (codes "s; tried " ++ (format tried ++ codes " candidate symbols")))
to_string (no_candidates files_attempted files_failed) =
    codes "no candidate symbols found: "
    ++ (format files_attempted
        ++ (codes " files examined, "
            ++ (format files_failed ++ codes " of them failed to respond")))

-- `Result<T>` of the crate.
pub data Result {ℓ} (A : Type ℓ) : Type ℓ where
  ok : A → Result A
  err : Error → Result A

infixl 5 ◌>>=◌
abbrev pub ◌>>=◌ {ℓ κ} : {A : Type ℓ} {B : Type κ} → Result A → (A → Result B) → Result B
ok a >>= f = f a
err e >>= f = err e

pub Result-cases {ℓ} :
    {A : Type ℓ} (r : Result A) → ((x : Error) × (r ≡ err x)) ⊎ ((a : A) × (r ≡ ok a))
Result-cases (ok a) = inr (a, refl)
Result-cases (err x) = inl (x, refl)
