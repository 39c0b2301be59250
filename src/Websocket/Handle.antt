-- ===== src/Websocket/Handle.antt =====
-- `frame_handle` and `send_close_frame` of src/protocol/websocket/websocket_handler.cc. Sending takes one
-- of the free send buffers; the frames sent and the closing are part of the state. A close frame is its
-- code, for the bytes that generate_close_frame makes of it.
use jdocs.Base.{
  ℕ, zero, suc, ◌+◌, ◌≤◌, ◌≡◌, ◌⊎◌, refl, sym, ap, ◌∙◌, Bool, true, false, List, [], ◌∷◌, ◌++◌,
  append_assoc, append-nil, arith, length, length-append, ltb, ◌==◌, if◌then◌else◌,
}
use jdocs.Websocket.Parser.{WebSocketParser, max_payload_length, protocol_error, payload_too_big}

pub data HandleState : Type 0 where
  normal continued closing closed : HandleState

pub data Sending : Type 0 where
  close_frame : (code : ℕ) → Sending
  frame : (bytes : List ℕ) → Sending

pub record WebSocketHandler : Type 0 where
  pub handle_state : HandleState
  pub payload_cache : List ℕ
  pub free : ℕ
  pub sent : List Sending
  pub closed : Bool
  pub wait_pong_flag : Bool
  pub pong_timer : Bool

abbrev pub unsupported_data : ℕ
unsupported_data = 1003

unfoldable pub send_close_frame : WebSocketHandler → ℕ → WebSocketHandler
send_close_frame h code = elim h.free [
  | zero ↦ record h { closed = true }
  | suc left ↦ record h {
    free = left;
    sent = h.sent ++ (close_frame code ∷ []);
    handle_state = HandleState.closing;
  }
]

unfoldable pub continue_frame : WebSocketHandler → WebSocketParser → WebSocketHandler
continue_frame h p = elim h.handle_state [
  | HandleState.continued ↦
      let q : WebSocketHandler =
        if p.fin_flag then record h { handle_state = HandleState.normal } else h in
      if ltb max_payload_length (length q.payload_cache + length p.payload)
      then send_close_frame q payload_too_big
      else record q { payload_cache = q.payload_cache ++ p.payload }
  | _ ↦ send_close_frame h protocol_error
]

-- The parser is reset behind every call, so that moving its text away leaves no trace.
unfoldable pub frame_handle : WebSocketHandler → WebSocketParser → WebSocketHandler
unfolding continue_frame
frame_handle h p = elim h.handle_state [
  | HandleState.closing ↦ h
  | _ ↦
      if p.opcode == 0
      then continue_frame h p
      else if p.opcode == 1
      then (if p.fin_flag
          then record h { payload_cache = p.payload }
          else record h { payload_cache = p.payload; handle_state = HandleState.continued })
      else if p.opcode == 2
      then (if p.fin_flag
          then record h { payload_cache = p.payload }
          else record h { payload_cache = p.payload; handle_state = HandleState.continued })
      else send_close_frame h unsupported_data
]

-- Frames one after the other.
unfoldable pub receive : WebSocketHandler → List WebSocketParser → WebSocketHandler
receive h [] = h
receive h (p ∷ ps) = receive (frame_handle h p) ps

-- The fragments behind the first one: continuations, with FIN on the last alone.
unfoldable pub Continue : WebSocketParser → List WebSocketParser → Type 0
Continue p [] = (p.opcode ≡ 0) × (p.fin_flag ≡ true)
Continue p (q ∷ qs) = (p.opcode ≡ 0) × (p.fin_flag ≡ false) × Continue q qs

unfoldable pub payloads : List WebSocketParser → List ℕ
payloads [] = []
payloads (p ∷ ps) = p.payload ++ payloads ps

continue_frame-append :
    (h : WebSocketHandler) (p : WebSocketParser)
    → h.handle_state ≡ HandleState.continued
    → p.opcode ≡ 0
    → length h.payload_cache + length p.payload ≤ max_payload_length
    → frame_handle h p ≡ record h {
      handle_state = if p.fin_flag then HandleState.normal else HandleState.continued;
      payload_cache = h.payload_cache ++ p.payload;
    }
unfolding frame_handle continue_frame
continue_frame-append h p hs op fits = ground arith

receive-Continue :
    (h : WebSocketHandler) (p : WebSocketParser) (ps : List WebSocketParser)
    → h.handle_state ≡ HandleState.continued
    → Continue p ps
    → length h.payload_cache + length (payloads (p ∷ ps)) ≤ max_payload_length
    → receive h (p ∷ ps) ≡ record h {
      handle_state = HandleState.normal;
      payload_cache = h.payload_cache ++ payloads (p ∷ ps);
    }
unfolding receive Continue payloads
receive-Continue h p [] hs (op, fin) fits =
    let sizes = length-append p.payload [] in
    let one = continue_frame-append h p hs op (omega (arith, fits, sizes)) in
    rw (one, fin, append-nil p.payload)
receive-Continue h p (q ∷ qs) hs (op, fin, more) fits =
    let rest = payloads (q ∷ qs) in
    let cache = h.payload_cache ++ p.payload in
    let sizes = length-append p.payload rest in
    let grown = length-append h.payload_cache p.payload in
    let one = continue_frame-append h p hs op (omega (arith, fits, sizes)) in
    let next : WebSocketHandler = record h {
      handle_state = HandleState.continued;
      payload_cache = cache;
    } in
    let same : frame_handle h p ≡ next = one ∙ rw fin in
    ap (λ g. receive g (q ∷ qs)) same
    ∙ receive-Continue next q qs refl more (omega (arith, fits, sizes, grown))
    ∙ ap (λ c. record h { handle_state = HandleState.normal; payload_cache = c })
        (append_assoc h.payload_cache p.payload rest)

first_fragment :
    (h : WebSocketHandler) (p : WebSocketParser)
    → h.handle_state ≡ HandleState.normal
    → (p.opcode ≡ 1) ⊎ (p.opcode ≡ 2)
    → p.fin_flag ≡ false
    → frame_handle h p
      ≡ record h { handle_state = HandleState.continued; payload_cache = p.payload }
unfolding frame_handle
first_fragment h p hs op fin = ground arith

-- For a handler in its normal state, and a text or binary message that comes in fragments, the first one
-- without FIN and the others continuations with FIN on the last alone, of at most 2 ^ 16 octets
-- together: the fragments leave the handler in its normal state with the whole message as its payload,
-- no close frame sent and no send buffer taken.
pub receive-message :
    (h : WebSocketHandler) (p q : WebSocketParser) (qs : List WebSocketParser)
    → h.handle_state ≡ HandleState.normal
    → (p.opcode ≡ 1) ⊎ (p.opcode ≡ 2)
    → p.fin_flag ≡ false
    → Continue q qs
    → length (payloads (p ∷ q ∷ qs)) ≤ max_payload_length
    → receive h (p ∷ q ∷ qs) ≡ record h { payload_cache = payloads (p ∷ q ∷ qs) }
unfolding receive payloads
receive-message h p q qs hs op fin more fits =
    let rest = payloads (q ∷ qs) in
    let sizes = length-append p.payload rest in
    let next : WebSocketHandler = record h {
      handle_state = HandleState.continued;
      payload_cache = p.payload;
    } in
    ap (λ g. receive g (q ∷ qs)) (first_fragment h p hs op fin)
    ∙ receive-Continue next q qs refl more (omega (arith, fits, sizes))
    ∙ ap (λ s. record h { handle_state = s; payload_cache = p.payload ++ rest }) (sym hs)
