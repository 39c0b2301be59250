-- ===== src/Websocket/Control.antt =====
-- The control frames, the timers and a whole frame of src/protocol/websocket/websocket_handler.cc, for a
-- connection with its service. The time wheel calls `on_pong_timer` for the timer that `pong_timer` says
-- is hanging in it.
use jdocs.Base.{
  ℕ, zero, suc, ◌-◌, Bool, true, false, ◌&&◌, ◌||◌, List, [], ◌∷◌, ◌++◌, length, ◌==◌,
  if◌then◌else◌, map,
}
use jdocs.Websocket.Parser.{WebSocketParser, bit, protocol_error}
use jdocs.Websocket.Package.{encapsulation_package}
use jdocs.Websocket.Send.{send_data_frame}
use jdocs.Websocket.Handle.{
  normal, closing, frame, WebSocketHandler, unsupported_data, send_close_frame, frame_handle,
}

-- WS_PING_PAYLOAD, "Are you ok?".
abbrev pub ping_payload : List ℕ
ping_payload = 65 ∷ 114 ∷ 101 ∷ 32 ∷ 121 ∷ 111 ∷ 117 ∷ 32 ∷ 111 ∷ 107 ∷ 63 ∷ []

abbrev pub raw_ping_frame : List ℕ
raw_ping_frame = 0x89 ∷ 0x0B ∷ ping_payload

abbrev pub close_normal : ℕ
close_normal = 1000

-- `strcmp` finds no difference; `c_str` ends with a zero.
unfoldable pub same_c_str : List ℕ → List ℕ → Bool
same_c_str [] [] = true
same_c_str [] (c ∷ cs) = c == 0
same_c_str (b ∷ bs) [] = b == 0
same_c_str (b ∷ bs) (c ∷ cs) = b == c && (b == 0 || same_c_str bs cs)

unfoldable pub send_ping_frame : WebSocketHandler → WebSocketHandler
send_ping_frame h = record h { sent = h.sent ++ (frame raw_ping_frame ∷ []); wait_pong_flag = true }

unfoldable pub timeout_handle : WebSocketHandler → WebSocketHandler
unfolding send_ping_frame
timeout_handle h = record (send_ping_frame h) { pong_timer = true }

-- The callback of `wait_pong_timer_`.
unfoldable pub on_pong_timer : WebSocketHandler → WebSocketHandler
on_pong_timer h =
    let fired : WebSocketHandler = record h { pong_timer = false } in
    if h.wait_pong_flag then record fired { closed = true } else fired

unfoldable pub send_pong_frame : WebSocketHandler → List ℕ → WebSocketHandler
send_pong_frame h payload = elim h.free [
  | zero ↦ record h { closed = true }
  | suc left ↦ record h {
    free = left;
    sent = h.sent ++ (frame (encapsulation_package true 10 payload) ∷ []);
  }
]

-- The answer to a CLOSE frame, before the connection is closed.
unfoldable pub answer_close : WebSocketHandler → WebSocketHandler
answer_close h = elim h.handle_state [ closing ↦ h | _ ↦ send_close_frame h close_normal ]

unfoldable pub on_pong : WebSocketHandler → List ℕ → WebSocketHandler
on_pong h payload =
    if h.wait_pong_flag
    then record (if same_c_str payload ping_payload then h else send_close_frame h protocol_error) {
      pong_timer = false;
      wait_pong_flag = false;
    }
    else h

unfoldable pub control_frame_handle : WebSocketHandler → WebSocketParser → WebSocketHandler
unfolding answer_close send_pong_frame on_pong
control_frame_handle h p =
    if p.opcode == 8
    then record (answer_close h) { closed = true }
    else if p.opcode == 9
    then send_pong_frame h p.payload
    else if p.opcode == 10
    then on_pong h p.payload
    else send_close_frame h unsupported_data

-- What the service makes of a message: its state, the send buffers that it leaves, and the reply.
pub record Served (S : Type 0) : Type 0 where
  pub state : S
  pub left : ℕ
  pub reply : List ℕ

abbrev pub Service : Type 0 → Type 0
Service S = S → (free : ℕ) → List ℕ → Served S

pub record Peer (S : Type 0) : Type 0 where
  pub handler : WebSocketHandler
  pub service : S

unfoldable pub send_reply : WebSocketHandler → List ℕ → WebSocketHandler
send_reply h bytes =
    let s = send_data_frame h.free bytes in
    record h {
      free = h.free - length s.frames;
      sent = h.sent ++ map frame s.frames;
      closed = h.closed || s.closed;
    }

module _ {S : Type 0} (serve : Service S) where
  -- The message in `payload_cache` goes to the service, and the reply to the client.
  unfoldable pub serve_message : WebSocketHandler → S → Peer S
  unfolding send_reply
  serve_message h state =
      let s = serve state h.free h.payload_cache in
      record {
        handler = record (send_reply (record h { free = s.left }) s.reply) { payload_cache = [] };
        service = s.state;
      }

  unfoldable pub data_frame_handle : WebSocketHandler → S → Peer S
  unfolding serve_message
  data_frame_handle h state = elim h.handle_state [
    | normal ↦ serve_message h state
    | _ ↦ record { handler = h; service = state }
  ]

  -- A frame that the parser is done with.
  unfoldable pub handle_frame : Peer S → WebSocketParser → Peer S
  unfolding control_frame_handle data_frame_handle
  handle_frame w p =
      if bit p.opcode 8
      then record w { handler = control_frame_handle w.handler p }
      else data_frame_handle (frame_handle w.handler p) w.service
