-- ===== src/Ws/Reader/Runs.antt =====
-- The reader over a connection: bytes that arrive, events that are asked for, and new connections.
use bowst.Prelude.{ℕ, ◌^◌, ◌<◌, ◌≡◌, List, [], ◌∷◌, length, length-take, take, ok, arith}
use bowst.Ws.Reader.{ReaderConfig, WsReader, new, reset, spare, next_event}
use bowst.Ws.Reader.View.{IsReader}
use bowst.Ws.Reader.Invariant.{read_frames-IsReader}
use bowst.Ws.Reader.Operations.{new-IsReader, reset-IsReader}
use bowst.Ws.Reader.Receive.{receive, view-receive}

pub data Call : Type 0 where
  arrive : List ℕ → Call
  ask : Call
  restart : Call

-- A read of the socket gives at most as many bytes as there is room for.
abbrev pub call : WsReader → Call → WsReader
call r (arrive bytes) = receive r (take (length (spare r).1) bytes)
call r ask = (next_event r).0
call r restart = reset r

abbrev pub run : WsReader → List Call → WsReader
run r [] = r
run r (c ∷ calls) = run (call r c) calls

call-IsReader : (r : WsReader) (c : Call) → IsReader r → IsReader (call r c)
unfolding next_event
call-IsReader r (arrive bytes) v =
    (view-receive r (take (length (spare r).1) bytes) v
      (omega (arith, length-take (length (spare r).1) bytes))).0
call-IsReader r ask v = read_frames-IsReader _ r v
call-IsReader r restart v = reset-IsReader r v

run_valid : (r : WsReader) (calls : List Call) → IsReader r → IsReader (run r calls)
run_valid r [] v = v
run_valid r (c ∷ calls) v = run_valid (call r c) calls (call-IsReader r c v)

-- Whatever bytes arrive, and however often events are asked for, errors included, a reader that was made
-- with limits below 2^63 keeps its indices in order and inside the buffer, the buffer's size, and the
-- message in progress within its limit.
pub run-IsReader :
    (config : ReaderConfig) (r : WsReader) (calls : List Call)
    → config.buffer < 2 ^ 63
    → config.max_message < 2 ^ 63
    → new config ≡ ok r
    → IsReader (run r calls)
run-IsReader config r calls memory limit e =
    run_valid r calls (new-IsReader config r memory limit e)
