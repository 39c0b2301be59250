-- ===== src/Tests/Frames.antt =====
-- The WebSocket frames of src/protocol/websocket/websocket_parser.cc and websocket_handler.cc.
use jdocs.Base.{
  inl, Bool, length-replicate, ℕ, ◌≡◌, refl, arith, true, false, List, [], ◌∷◌, ◌++◌, replicate,
}
use jdocs.Websocket.Bytes.{store_byte, be64toh}
use jdocs.Websocket.Parser.{ParserState, WebSocketParser, parser_execute, reset}
use jdocs.Websocket.Frame.{client_frame}
use jdocs.Websocket.Package.{encapsulation_package}
use jdocs.Websocket.Send.{
  send_data_frame, get_affordable_payload_size, Delivered, send_data_frame-Delivered,
}
use jdocs.Websocket.Handle.{
  HandleState, close_frame, WebSocketHandler, frame_handle, send_close_frame, receive, Continue,
  payloads, receive-message,
}
use jdocs.Websocket.Receive.{Received, parser_execute-client_frame}

-- A parser behind a binary frame that was not reset yet.
used : WebSocketParser
used = record {
  state = ParserState.done;
  fin_flag = true;
  rsv1_flag = false;
  rsv2_flag = false;
  rsv3_flag = false;
  opcode = 2;
  mask_flag = true;
  len = 3;
  error_code = 0;
  mask = 1 ∷ 2 ∷ 3 ∷ 4 ∷ [];
  payload_length = 3;
  remain_bytes = 0;
  payload = 9 ∷ 9 ∷ 9 ∷ [];
}

-- The masked text frame "Hello" of RFC 6455, section 5.7.
abbrev hello : List ℕ
hello = 0x81 ∷ 0x85 ∷ 0x37 ∷ 0xfa ∷ 0x21 ∷ 0x3d ∷ 0x7f ∷ 0x9f ∷ 0x4d ∷ 0x51 ∷ 0x58 ∷ []

abbrev seen : ℕ × WebSocketParser → ℕ × ParserState × ℕ × ℕ × List ℕ
seen (n, p) = (n, p.state, p.opcode, p.error_code, p.payload)

hello_done :
    seen (parser_execute (reset used) hello)
    ≡ (11, ParserState.done, 1, 0, 72 ∷ 101 ∷ 108 ∷ 108 ∷ 111 ∷ [])
unfolding used parser_execute reset
hello_done = refl

-- The 64-bit form with one octet more than the limit.
too_big :
    seen (parser_execute (reset used) (0x82 ∷ 0xff ∷ 0 ∷ 0 ∷ 0 ∷ 0 ∷ 0 ∷ 1 ∷ 0 ∷ 1 ∷ 7 ∷ []))
    ≡ (0, ParserState.payload_len64, 2, 1009, [])
unfolding used parser_execute reset be64toh store_byte
too_big = refl

without_mask :
    seen (parser_execute (reset used) (0x81 ∷ 5 ∷ [])) ≡ (0, ParserState.mask_and_len, 1, 1002, [])
unfolding used parser_execute reset
without_mask = refl

-- 200 octets in the 16-bit form, with the next frame's first byte behind them.
parser_execute-client_frame_example : Received used 0x82 0x37 0xfa 0x21 0x3d (replicate 200 0x11) (
    parser_execute
      (reset used)
      (client_frame 0x82 0x37 0xfa 0x21 0x3d (replicate 200 0x11) ++ (0x81 ∷ [])))
unfolding used
parser_execute-client_frame_example =
    parser_execute-client_frame used 0x82 0x37 0xfa 0x21 0x3d (replicate 200 0x11) (0x81 ∷ []) refl
      (omega arith)

-- A short text frame, and the room in the frames of a long payload.
short_frame :
    send_data_frame 1 (72 ∷ 105 ∷ [])
    ≡ record { frames = (0x81 ∷ 2 ∷ 72 ∷ 105 ∷ []) ∷ []; closed = false }
unfolding send_data_frame get_affordable_payload_size encapsulation_package
short_frame = refl

rooms :
    (get_affordable_payload_size 3000 2048 ≡ 2044)
    × (get_affordable_payload_size 70000 2048 ≡ 2038)
    × (get_affordable_payload_size 956 2048 ≡ 956)
unfolding get_affordable_payload_size
rooms = (refl, refl, refl)

-- 3000 octets need two buffers.
send_data_frame-Delivered_example :
    Delivered true (replicate 3000 7) (send_data_frame 2 (replicate 3000 7))
send_data_frame-Delivered_example =
    send_data_frame-Delivered 2 (replicate 3000 7) (omega (arith, length-replicate {A = ℕ} 3000 7))
      (omega (arith, length-replicate {A = ℕ} 3000 7))

abbrev fragment : (opcode : ℕ) → Bool → List ℕ → WebSocketParser
fragment opcode fin payload = record used { opcode = opcode; fin_flag = fin; payload = payload }

abbrev idle : WebSocketHandler
idle = record {
  handle_state = HandleState.normal;
  payload_cache = [];
  free = 1;
  sent = [];
  closed = false;
  wait_pong_flag = false;
  pong_timer = false;
}

-- A continuation without a first fragment.
lone_continuation :
    frame_handle idle (fragment 0 true (7 ∷ []))
    ≡ record idle { handle_state = HandleState.closing; free = 0; sent = close_frame 1002 ∷ [] }
unfolding frame_handle used send_close_frame
lone_continuation = refl

receive-message_example :
    receive idle (
      fragment 1 false (1 ∷ 2 ∷ []) ∷ fragment 0 false (3 ∷ []) ∷ fragment 0 true (4 ∷ 5 ∷ []) ∷ [])
    ≡ record idle {
      payload_cache = payloads (
          fragment 1 false (1 ∷ 2 ∷ [])
          ∷ fragment 0 false (3 ∷ [])
          ∷ fragment 0 true (4 ∷ 5 ∷ [])
          ∷ []);
    }
unfolding Continue payloads
receive-message_example =
    receive-message idle (fragment 1 false (1 ∷ 2 ∷ [])) (fragment 0 false (3 ∷ []))
      (fragment 0 true (4 ∷ 5 ∷ []) ∷ []) refl (inl refl) refl (refl, refl, (refl, refl))
      (omega arith)
