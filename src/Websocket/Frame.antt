-- ===== src/Websocket/Frame.antt =====
-- A client's frame as RFC 6455 lays it out, and what src/protocol/websocket/websocket_parser.cc makes
-- of its header.
use jdocs.Base.{
  ℕ, ◌+◌, ◌/◌, ◌%◌, ◌^◌, ◌≤◌, ◌<◌, ◌≡◌, ap, ◌∙◌, bit_xor, true, List, [], ◌∷◌, ◌++◌, arith, length,
  get_or, ltb, if◌then◌else◌,
}
use jdocs.Websocket.Bytes.{store_byte, be16toh, be16toh-store_byte}
use jdocs.Websocket.Parser.{
  ParserState, WebSocketParser, max_payload_length, advance, bit, one_less, to_masking_key,
  on_mask_and_len, on_payload_len16, dispatch, run_bytes,
}

-- The octets of the masked payload from the one with this number on (section 5.3).
unfoldable pub unmask : (key : List ℕ) → ℕ → List ℕ → List ℕ
unmask key i [] = []
unmask key i (b ∷ bs) = bit_xor b (get_or key (i % 4) 0) ∷ unmask key (i + 1) bs

-- The mask bit and the payload length in its shortest form (section 5.2), below 2 ^ 16 octets.
unfoldable pub length_field : ℕ → List ℕ
length_field n = if ltb n 126 then (128 + n) ∷ [] else 254 ∷ n / 256 ∷ n % 256 ∷ []

-- A frame whose octets on the wire are `wire`.
unfoldable pub client_frame : (head k0 k1 k2 k3 : ℕ) (wire : List ℕ) → List ℕ
unfolding length_field
client_frame head k0 k1 k2 k3 wire =
    (head ∷ length_field (length wire)) ++ (k0 ∷ k1 ∷ k2 ∷ k3 ∷ wire)

pub run_bytes-advance :
    (i : ℕ) (p q : WebSocketParser) (b : ℕ) (rest : List ℕ)
    → dispatch p.state p b ≡ (advance, q)
    → run_bytes i p (b ∷ rest) ≡ run_bytes (i + 1) q rest
unfolding run_bytes
run_bytes-advance i p q b rest e = rw (e, run_bytes) (ap (λ o. run_bytes (i + 1) o.1 rest) e)

-- The parser behind the header's fixed part and the length `n`.
abbrev pub headed : WebSocketParser → (head len n : ℕ) → WebSocketParser
headed p head len n = record p {
  state = ParserState.masking_key;
  fin_flag = bit head 128;
  rsv1_flag = bit head 64;
  rsv2_flag = bit head 32;
  rsv3_flag = bit head 16;
  opcode = head % 16;
  mask_flag = true;
  len = len;
  payload_length = n;
  remain_bytes = 4;
  payload = [];
}

pub to_masking_key-fits :
    (p : WebSocketParser) (n : ℕ)
    → n ≤ max_payload_length
    → to_masking_key p n ≡ (
      advance,
      record p { payload_length = n; state = ParserState.masking_key; remain_bytes = 4 },
    )
unfolding to_masking_key
to_masking_key-fits p n h = ground arith

abbrev pub first : WebSocketParser → ℕ → WebSocketParser
first p head = record p {
  state = ParserState.mask_and_len;
  fin_flag = bit head 128;
  rsv1_flag = bit head 64;
  rsv2_flag = bit head 32;
  rsv3_flag = bit head 16;
  opcode = head % 16;
  remain_bytes = 1;
  payload = [];
}

pub short_length :
    (p : WebSocketParser) (head n : ℕ)
    → n < 126
    → on_mask_and_len (first p head) (128 + n) ≡ (advance, headed p head n n)
unfolding on_mask_and_len to_masking_key bit
short_length p head n h =
    let masked : (128 + n) / 128 % 2 ≡ 1 = omega (arith, h) in
    let rest : (128 + n) % 128 ≡ n = omega (arith, h) in rw (masked, rest) (ground arith)

pub middle_length :
    (p : WebSocketParser) (head n : ℕ)
    → n < 2 ^ 16
    → on_payload_len16
        (record (first p head) {
          state = ParserState.payload_len16;
          mask_flag = true;
          len = 126;
          payload_length = store_byte p.payload_length 0 (n / 256);
          remain_bytes = 1;
        })
        (n % 256)
      ≡ (advance, headed p head 126 n)
unfolding on_payload_len16 one_less
middle_length p head n h =
    let word : be16toh (store_byte (store_byte p.payload_length 0 (n / 256)) 1 (n % 256) % 2 ^ 16)
        ≡ n =
      be16toh-store_byte p.payload_length (n / 256) (n % 256) (omega (arith, h)) (omega arith)
      ∙ omega arith in
    let stored : WebSocketParser = record (first p head) {
      state = ParserState.payload_len16;
      mask_flag = true;
      len = 126;
      payload_length = store_byte (store_byte p.payload_length 0 (n / 256)) 1 (n % 256);
      remain_bytes = 0;
    } in
    ap (to_masking_key stored) word ∙ to_masking_key-fits stored n (omega (arith, h))
