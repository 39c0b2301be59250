-- ===== src/Websocket/Loop.antt =====
-- RecvDataHandle of src/protocol/websocket/websocket_handler.cc: its loop over the frames of a buffer.
use jdocs.Base.{
  ℕ, zero, suc, Bool, true, false, List, Option, none, some, length, drop, ltb, ◌==◌, if◌then◌else◌,
}
use jdocs.Websocket.Parser.{ParserState, WebSocketParser, parser_execute, reset}
use jdocs.Websocket.Handle.{send_close_frame}
use jdocs.Websocket.Control.{Service, Peer, handle_frame}

unfoldable pub is_done : ParserState → Bool
is_done ParserState.done = true
is_done _ = false

-- The parser waits for more, or has met an error.
unfoldable pub not_done : {S : Type 0} → Peer S → WebSocketParser → Peer S
not_done w p =
    if p.error_code == 0 then w else record w { handler = send_close_frame w.handler p.error_code }

module _ {S : Type 0} (serve : Service S) where
  -- From `next_loop` on; `none` stands for used-up fuel.
  unfoldable pub recv_rounds :
      ℕ → Peer S → WebSocketParser → List ℕ → Option (Peer S × WebSocketParser)
  unfolding is_done not_done
  recv_rounds zero w p buffer = none
  recv_rounds (suc fuel) w p buffer =
      let (parsed, q) = parser_execute p buffer in
      let v = handle_frame serve w q in
      let again = recv_rounds fuel v (reset q) (drop parsed buffer) in
      if w.handler.closed
      then some (w, p)
      else if is_done q.state
      then (if ltb parsed (length buffer) then again else some (v, reset q))
      else some (not_done w q, q)

  unfoldable pub recv_data_handle :
      Peer S → WebSocketParser → List ℕ → Option (Peer S × WebSocketParser)
  unfolding recv_rounds
  recv_data_handle w p buffer = recv_rounds (suc (length buffer)) w p buffer
