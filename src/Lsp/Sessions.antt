-- ===== src/Lsp/Sessions.antt =====
-- `LspServer::run` of compiler/src/lsp/transport_impl.inc on what `writeFrame` sends.
use hphl.Base.{
  ℕ, zero, suc, ◌≤◌, ◌≡◌, refl, ap, ◌∙◌, Bool, true, ◌&&◌, arith, Option, List, [], ◌∷◌, ◌++◌,
  length, length-append, and_left, and_right, if◌then◌else◌,
}
use hphl.Json.{Bytes, JsonValue}
use hphl.Json.Scan.{Parsed}
use hphl.Json.Text.{serialize}
use hphl.Json.RoundTrip.{is_exact}
use hphl.Json.Inverse.{parse_json-serialize}
use hphl.Lsp.Frames.{read_frame, write_frame, read_header}
use hphl.Lsp.Streams.{read_frame-write_frame}
use hphl.Lsp.Server.{on_frame, on_parsed, serve, run}

unfoldable pub all_exact : List JsonValue → Bool
all_exact [] = true
all_exact (v ∷ vs) = is_exact v && all_exact vs

module _ (print : ℕ → Bytes) where
  -- What a client sends that writes these messages.
  unfoldable pub write_messages : List JsonValue → Bytes
  write_messages [] = []
  write_messages (v ∷ vs) = write_frame (serialize print v) ++ write_messages vs

module _ {S : Type 0} (on_message : JsonValue → S → S) (exit_requested : S → Bool) where
  -- The messages handled one after the other, up to the one that asks for the end.
  unfoldable pub handle_all : List JsonValue → S → S
  handle_all [] st = st
  handle_all (v ∷ vs) st =
      let st' = on_message v st in
      let rest = handle_all vs st' in if exit_requested st' then st' else rest

  module _ (stod : Bytes → Option ℕ) (print : ℕ → Bytes) where
    serve-write_messages :
        (k : ℕ) (vs : List JsonValue) (st : S)
        → length vs ≤ k
        → all_exact vs ≡ true
        → serve stod on_message exit_requested k (write_messages print vs) st ≡ handle_all vs st
    unfolding serve write_messages handle_all all_exact
    serve-write_messages zero [] st h e = refl
    serve-write_messages zero (v ∷ vs) st h e = absurd (omega arith)
    serve-write_messages (suc k) [] st h e = unfold read_frame read_header in refl
    serve-write_messages (suc k) (v ∷ vs) st h e =
        let rest = write_messages print vs in
        let go = λ (x : S). if exit_requested (on_message v st) then on_message v st else x in
        ap
          (λ (r : Option Bytes × Bytes).
            on_frame stod on_message exit_requested r (serve stod on_message exit_requested k) st)
          (read_frame-write_frame (serialize print v) rest)
        ∙ ap
            (λ (p : Parsed JsonValue).
              on_parsed stod on_message exit_requested p
                (serve stod on_message exit_requested k rest) st)
            (parse_json-serialize print stod v (and_left (is_exact v) _ e))
        ∙ ap go
            (serve-write_messages k vs (on_message v st) (omega arith) (and_right (is_exact v) _ e))

    length-write_frame : (b : Bytes) → 1 ≤ length (write_frame b)
    unfolding write_frame
    length-write_frame b = ground arith

    length-write_messages : (vs : List JsonValue) → length vs ≤ length (write_messages print vs)
    unfolding write_messages
    length-write_messages [] = omega arith
    length-write_messages (v ∷ vs) =
        let h = length-append (write_frame (serialize print v)) (write_messages print vs) in
        omega (arith, h, length-write_messages vs, length-write_frame (serialize print v))

    -- On the frames of messages that carry exact JSON values, `run` handles each message in order, up
    -- to one that asks for the end, however `double`s are written and read.
    pub run-write_messages :
        (vs : List JsonValue) (st : S)
        → all_exact vs ≡ true
        → run stod on_message exit_requested (write_messages print vs) st ≡ handle_all vs st
    unfolding run
    run-write_messages vs st e =
        serve-write_messages _ vs st (omega (arith, length-write_messages vs)) e
