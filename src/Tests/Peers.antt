-- ===== src/Tests/Peers.antt =====
-- Connections of src/protocol/websocket/websocket_handler.cc with a service that sends back what it gets.
use jdocs.Base.{ℕ, ◌≡◌, refl, arith, true, false, List, [], ◌∷◌, ◌+◌, Option, none, some}
use jdocs.Websocket.Parser.{ParserState, WebSocketParser, parser_execute, reset}
use jdocs.Websocket.Frame.{client_frame}
use jdocs.Websocket.Package.{encapsulation_package}
use jdocs.Websocket.Send.{send_data_frame, get_affordable_payload_size}
use jdocs.Websocket.Handle.{HandleState, Sending, frame, WebSocketHandler, frame_handle}
use jdocs.Websocket.Control.{
  ping_payload, raw_ping_frame, Service, Peer, timeout_handle, on_pong_timer, on_pong, same_c_str,
  handle_frame,
}
use jdocs.Websocket.Loop.{recv_data_handle}
use jdocs.Websocket.Stream.{ClientFrame, Streamed, Short, octets, stream, recv_data_handle-Streamed}

ping_bytes : raw_ping_frame ≡ encapsulation_package true 9 ping_payload
unfolding encapsulation_package
ping_bytes = refl

abbrev idle : WebSocketHandler
idle = record {
  handle_state = HandleState.normal;
  payload_cache = [];
  free = 2;
  sent = [];
  closed = false;
  wait_pong_flag = false;
  pong_timer = false;
}

-- The service counts its messages.
abbrev echo : Service ℕ
echo n free bytes = record { state = n + 1; left = free; reply = bytes }

abbrev fresh : WebSocketParser
fresh = record {
  state = ParserState.fin_and_opcode;
  fin_flag = false;
  rsv1_flag = false;
  rsv2_flag = false;
  rsv3_flag = false;
  opcode = 0;
  mask_flag = false;
  len = 0;
  error_code = 0;
  mask = 0 ∷ 0 ∷ 0 ∷ 0 ∷ [];
  payload_length = 0;
  remain_bytes = 1;
  payload = [];
}

-- A text "Hi", and a ping without payload.
abbrev hi : ClientFrame
hi = record { head = 0x81; k0 = 1; k1 = 2; k2 = 3; k3 = 4; wire = 73 ∷ 107 ∷ [] }

abbrev ping : ClientFrame
ping = record { head = 0x89; k0 = 5; k1 = 6; k2 = 7; k3 = 8; wire = [] }

abbrev start : Peer ℕ
start = record { handler = idle; service = 0 }

abbrev sent_by : Option (Peer ℕ × WebSocketParser) → List Sending
sent_by none = []
sent_by (some (w, p)) = w.handler.sent

both_answered :
    sent_by (recv_data_handle echo start fresh (stream (hi ∷ ping ∷ [])))
    ≡ frame (0x81 ∷ 2 ∷ 72 ∷ 105 ∷ []) ∷ frame (0x8a ∷ 0 ∷ []) ∷ []
unfolding recv_data_handle stream handle_frame frame_handle parser_execute reset send_data_frame
    encapsulation_package get_affordable_payload_size octets client_frame
both_answered = refl

-- A pong that comes in time keeps the connection open.
pong_in_time : (on_pong_timer (on_pong (timeout_handle idle) ping_payload)).closed ≡ false
unfolding on_pong_timer on_pong timeout_handle same_c_str
pong_in_time = refl

no_pong : (on_pong_timer (timeout_handle idle)).closed ≡ true
unfolding on_pong_timer timeout_handle
no_pong = refl

recv_data_handle-Streamed_example : Streamed echo start fresh (hi ∷ ping ∷ []) (0x81 ∷ [])
unfolding Short
recv_data_handle-Streamed_example =
    recv_data_handle-Streamed echo start fresh (hi ∷ ping ∷ []) (0x81 ∷ []) refl refl
      (omega arith, (omega arith, tt))
