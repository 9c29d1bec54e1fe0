-- ===== src/Lsp/Server.antt =====
-- `LspServer::run` of compiler/src/lsp/transport_impl.inc. The handler of a message, `onMessage` with
-- what it catches, and the test of `exitRequested_` are arguments: `on_message` and `exit_requested`.
use hphl.Base.{ℕ, zero, suc, Bool, Option, none, some, length, if◌then◌else◌}
use hphl.Json.{Bytes, JsonValue}
use hphl.Json.Scan.{Parsed, ok}
use hphl.Json.Parser.{parse_json}
use hphl.Lsp.Frames.{read_frame}

module _ (stod : Bytes → Option ℕ) {S : Type 0} (on_message : JsonValue → S → S)
    (exit_requested : S → Bool) where
  -- The body of the loop on a message, before the rest of the input is served.
  abbrev pub on_parsed : Parsed JsonValue → (S → S) → S → S
  on_parsed p serve_rest st = elim p [
    | ok msg s ↦
        let st' = on_message msg st in
        let rest = serve_rest st' in if exit_requested st' then st' else rest
    | _ ↦ serve_rest st
  ]

  abbrev pub on_frame : Option Bytes × Bytes → (Bytes → S → S) → S → S
  on_frame (none, s) serve_rest st = st
  on_frame (some b, s) serve_rest st = on_parsed (parse_json stod b) (serve_rest s) st

  -- On fuel: every frame takes a byte of the input.
  unfoldable pub serve : ℕ → Bytes → S → S
  serve zero s st = st
  serve (suc k) s st = on_frame (read_frame s) (serve k) st

  unfoldable pub run : Bytes → S → S
  run s st = serve (suc (length s)) s st
