-- ===== src/Websocket/Parser.antt =====
-- `WebSocketParser` of src/protocol/websocket/websocket_parser.h and websocket_parser.cc. A mask on a
-- byte is written by division: `b & 0x80` by `b / 128 % 2`, `b & 0x7F` by `b % 128`.
use jdocs.Base.{
  ℕ, ◌+◌, ◌-◌, ◌/◌, ◌%◌, ◌^◌, bit_xor, Bool, not, List, [], ◌∷◌, ◌++◌, set, get_or, ltb, ◌==◌,
  if◌then◌else◌,
}
use jdocs.Websocket.Bytes.{store_byte, be16toh, be64toh}

pub data ParserState : Type 0 where
  fin_and_opcode mask_and_len payload_len16 payload_len64 : ParserState
  masking_key payload_data done : ParserState

pub record WebSocketParser : Type 0 where
  pub state : ParserState
  pub fin_flag : Bool
  pub rsv1_flag : Bool
  pub rsv2_flag : Bool
  pub rsv3_flag : Bool
  pub opcode : ℕ
  pub mask_flag : Bool
  pub len : ℕ
  pub error_code : ℕ
  pub mask : List ℕ
  pub payload_length : ℕ
  pub remain_bytes : ℕ
  pub payload : List ℕ

abbrev pub protocol_error : ℕ
protocol_error = 1002

abbrev pub payload_too_big : ℕ
payload_too_big = 1009

abbrev pub max_payload_length : ℕ
max_payload_length = 2 ^ 16

-- How the `switch` ends for a byte: `break`, `return 0`, `return i`.
pub data Flow : Type 0 where
  advance reject stay : Flow

abbrev pub Outcome : Type 0
Outcome = Flow × WebSocketParser

-- `--remain_bytes_` on a uint64_t.
unfoldable pub one_less : ℕ → ℕ
one_less n = (n + (2 ^ 64 - 1)) % 2 ^ 64

unfoldable pub bit : ℕ → ℕ → Bool
bit b weight = b / weight % 2 == 1

unfoldable pub on_fin_and_opcode : WebSocketParser → ℕ → Outcome
unfolding bit
on_fin_and_opcode p b = (
  advance,
  record p {
    fin_flag = bit b 128;
    rsv1_flag = bit b 64;
    rsv2_flag = bit b 32;
    rsv3_flag = bit b 16;
    opcode = b % 16;
    state = ParserState.mask_and_len;
  },
)

-- The test of the length, and the step to the masking key.
unfoldable pub to_masking_key : WebSocketParser → ℕ → Outcome
to_masking_key p n =
    if ltb max_payload_length n
    then (reject, record p { payload_length = n; error_code = payload_too_big })
    else (
      advance,
      record p { payload_length = n; state = ParserState.masking_key; remain_bytes = 4 },
    )

unfoldable pub on_mask_and_len : WebSocketParser → ℕ → Outcome
unfolding bit to_masking_key
on_mask_and_len p b =
    let q : WebSocketParser = record p { mask_flag = bit b 128; len = b % 128 } in
    if not q.mask_flag
    then (reject, record q { error_code = protocol_error })
    else if ltb q.len 126
    then to_masking_key q q.len
    else if q.len == 126
    then (advance, record q { state = ParserState.payload_len16; remain_bytes = 2 })
    else (advance, record q { state = ParserState.payload_len64; remain_bytes = 8 })

unfoldable pub on_payload_len16 : WebSocketParser → ℕ → Outcome
unfolding one_less to_masking_key
on_payload_len16 p b =
    let word = store_byte p.payload_length (2 - p.remain_bytes) b in
    let left = one_less p.remain_bytes in
    let q : WebSocketParser = record p { payload_length = word; remain_bytes = left } in
    if left == 0 then to_masking_key q (be16toh (word % 2 ^ 16)) else (advance, q)

unfoldable pub on_payload_len64 : WebSocketParser → ℕ → Outcome
unfolding one_less to_masking_key
on_payload_len64 p b =
    let word = store_byte p.payload_length (8 - p.remain_bytes) b in
    let left = one_less p.remain_bytes in
    let q : WebSocketParser = record p { payload_length = word; remain_bytes = left } in
    if left == 0 then to_masking_key q (be64toh word) else (advance, q)

unfoldable pub on_masking_key : WebSocketParser → ℕ → Outcome
unfolding one_less
on_masking_key p b =
    let left = one_less p.remain_bytes in
    let q : WebSocketParser = record p {
      mask = set p.mask (4 - p.remain_bytes) b;
      remain_bytes = left;
    } in
    if not (left == 0)
    then (advance, q)
    else if not (q.payload_length == 0)
    then (advance, record q { state = ParserState.payload_data; remain_bytes = q.payload_length })
    else (advance, record q { state = ParserState.done; remain_bytes = q.payload_length })

unfoldable pub on_payload_data : WebSocketParser → ℕ → Outcome
unfolding one_less
on_payload_data p b =
    let index = p.payload_length - p.remain_bytes in
    let left = one_less p.remain_bytes in
    let q : WebSocketParser = record p {
      payload = p.payload ++ (bit_xor b (get_or p.mask (index % 4) 0) ∷ []);
      remain_bytes = left;
    } in
    if left == 0 then (advance, record q { state = ParserState.done }) else (advance, q)

unfoldable pub dispatch : ParserState → WebSocketParser → ℕ → Outcome
unfolding on_fin_and_opcode on_mask_and_len on_payload_len16 on_payload_len64 on_masking_key
    on_payload_data
dispatch ParserState.fin_and_opcode p b = on_fin_and_opcode p b
dispatch ParserState.mask_and_len p b = on_mask_and_len p b
dispatch ParserState.payload_len16 p b = on_payload_len16 p b
dispatch ParserState.payload_len64 p b = on_payload_len64 p b
dispatch ParserState.masking_key p b = on_masking_key p b
dispatch ParserState.payload_data p b = on_payload_data p b
dispatch ParserState.done p b = (stay, p)

-- What `ParserExecute` returns for the bytes from `i` on.
unfoldable pub run_bytes : ℕ → WebSocketParser → List ℕ → ℕ × WebSocketParser
unfolding dispatch
run_bytes i p [] = (i, p)
run_bytes i p (b ∷ rest) =
    let (flow, q) = dispatch p.state p b in
    elim flow [ advance ↦ run_bytes (i + 1) q rest | reject ↦ (0, q) | stay ↦ (i, q) ]

unfoldable pub parser_execute : WebSocketParser → List ℕ → ℕ × WebSocketParser
unfolding run_bytes
parser_execute p buffer = elim p.state [ ParserState.done ↦ (0, p) | _ ↦ run_bytes 0 p buffer ]

unfoldable pub reset : WebSocketParser → WebSocketParser
reset p = record p { state = ParserState.fin_and_opcode; remain_bytes = 1; payload = [] }
