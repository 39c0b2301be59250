-- ===== src/Websocket/Receive.antt =====
-- Whole frames through `ParserExecute` of src/protocol/websocket/websocket_parser.cc.
use jdocs.Base.{
  ℕ, zero, suc, ◌+◌, ◌-◌, ◌/◌, ◌%◌, ◌^◌, ◌≤◌, ◌<◌, ◌≡◌, refl, sym, ap, ap₂, ◌==◌, ◌∙◌, inl, inr,
  bit_xor, Bool-cases, true, false, List, [], ◌∷◌, ◌++◌, append_assoc, arith, length, length-append,
  set, get_or, ltb, if◌then◌else◌, subst,
}
use jdocs.Websocket.Bytes.{store_byte}
use jdocs.Websocket.Parser.{
  ParserState, WebSocketParser, max_payload_length, advance, bit, one_less, on_fin_and_opcode,
  on_masking_key, on_payload_data, dispatch, run_bytes, parser_execute, reset,
}
use jdocs.Websocket.Frame.{
  unmask, length_field, client_frame, run_bytes-advance, headed, first, short_length, middle_length,
}

-- Counting down from a small number does not wrap.
one_less-suc : (n : ℕ) → n < 2 ^ 32 → one_less (suc n) ≡ n
unfolding one_less
one_less-suc n h = omega (arith, h)

set_four :
    (xs : List ℕ) (a b c d : ℕ)
    → length xs ≡ 4
    → set (set (set (set xs 0 a) 1 b) 2 c) 3 d ≡ a ∷ b ∷ c ∷ d ∷ []
set_four [] a b c d h = absurd (omega (arith, h))
set_four (_ ∷ []) a b c d h = absurd (omega (arith, h))
set_four (_ ∷ _ ∷ []) a b c d h = absurd (omega (arith, h))
set_four (_ ∷ _ ∷ _ ∷ []) a b c d h = absurd (omega (arith, h))
set_four (_ ∷ _ ∷ _ ∷ _ ∷ []) a b c d h = refl
set_four (_ ∷ _ ∷ _ ∷ _ ∷ _ ∷ _) a b c d h = absurd (omega (arith, h))

-- The parser behind the masking key: no payload is waited for if there is none.
abbrev after_key : ℕ → ParserState
after_key zero = ParserState.done
after_key (suc n) = ParserState.payload_data

abbrev keyed : WebSocketParser → (head len n : ℕ) → List ℕ → WebSocketParser
keyed p head len n key = record (headed p head len n) {
  mask = key;
  remain_bytes = n;
  state = after_key n;
}

four_more : (i : ℕ) → i + 1 + 1 + 1 + 1 ≡ i + 4
four_more i = omega arith

key_bytes :
    (i : ℕ) (p : WebSocketParser) (head len n k0 k1 k2 k3 : ℕ) (tl : List ℕ)
    → length p.mask ≡ 4
    → run_bytes i (headed p head len n) (k0 ∷ k1 ∷ k2 ∷ k3 ∷ tl)
      ≡ run_bytes (i + 4) (keyed p head len n (k0 ∷ k1 ∷ k2 ∷ k3 ∷ [])) tl
unfolding run_bytes dispatch on_masking_key one_less
key_bytes i p head len zero k0 k1 k2 k3 tl h =
    ap (λ j. run_bytes j (keyed p head len 0 (set (set (set (set p.mask 0 k0) 1 k1) 2 k2) 3 k3)) tl)
      (four_more i)
    ∙ ap (λ key. run_bytes (i + 4) (keyed p head len 0 key) tl) (set_four p.mask k0 k1 k2 k3 h)
key_bytes i p head len (suc n) k0 k1 k2 k3 tl h =
    let written = set (set (set p.mask 0 k0) 1 k1) 2 k2 in
    let q : WebSocketParser = record (headed p head len (suc n)) {
      mask = written;
      remain_bytes = 1;
    } in
    let some_left : (suc n == 0) ≡ false = ground arith in
    let last : dispatch ParserState.masking_key q k3
        ≡ (advance, keyed p head len (suc n) (set written 3 k3)) =
      rw some_left in
    run_bytes-advance (i + 1 + 1 + 1) q _ k3 tl last
    ∙ ap (λ j. run_bytes j (keyed p head len (suc n) (set written 3 k3)) tl) (four_more i)
    ∙ ap (λ key. run_bytes (i + 4) (keyed p head len (suc n) key) tl)
        (set_four p.mask k0 k1 k2 k3 h)

abbrev receiving : WebSocketParser → List ℕ → ℕ → WebSocketParser
receiving p got left = record p {
  state = ParserState.payload_data;
  payload = got;
  remain_bytes = left;
}

abbrev received : WebSocketParser → List ℕ → ℕ → List ℕ → ℕ × WebSocketParser
received p tl i payload =
    run_bytes i (record p { state = ParserState.done; payload = payload; remain_bytes = 0 }) tl

-- The payload, from some octet on.
payload_bytes :
    (i : ℕ) (p : WebSocketParser) (got : List ℕ) (b : ℕ) (bs tl : List ℕ)
    → length (b ∷ bs) ≤ p.payload_length
    → p.payload_length ≤ max_payload_length
    → run_bytes i (receiving p got (length (b ∷ bs))) ((b ∷ bs) ++ tl)
      ≡ run_bytes
          (i + length (b ∷ bs))
          (record p {
            state = ParserState.done;
            payload = got ++ unmask p.mask (p.payload_length - length (b ∷ bs)) (b ∷ bs);
            remain_bytes = 0;
          })
          tl
unfolding dispatch on_payload_data one_less unmask
payload_bytes i p got b [] tl hl hm = run_bytes-advance i (receiving p got 1) _ b tl refl
payload_bytes i p got b (b' ∷ bs) tl hl hm =
    let left : one_less (suc (suc (length bs))) ≡ suc (length bs) =
      one_less-suc (suc (length bs)) (omega (arith, hl, hm)) in
    let index = p.payload_length - suc (suc (length bs)) in
    let x = bit_xor b (get_or p.mask (index % 4) 0) in
    let next : index + 1 ≡ p.payload_length - suc (length bs) = omega (arith, hl) in
    let some_left : (suc (length bs) == 0) ≡ false = ground arith in
    let step : dispatch ParserState.payload_data (receiving p got (suc (suc (length bs)))) b
        ≡ (advance, receiving p (got ++ (x ∷ [])) (suc (length bs))) =
      rw (left, some_left) in
    run_bytes-advance i (receiving p got (suc (suc (length bs)))) _ b ((b' ∷ bs) ++ tl) step
    ∙ payload_bytes (i + 1) p (got ++ (x ∷ [])) b' bs tl (omega (arith, hl)) hm
    ∙ ap₂ (received p tl) (omega arith) (
        append_assoc got (x ∷ []) (unmask p.mask (p.payload_length - suc (length bs)) (b' ∷ bs))
        ∙ ap (λ j. got ++ (x ∷ unmask p.mask j (b' ∷ bs))) (sym next))

below : (a b : ℕ) → ltb a b ≡ true → a < b
below a b h = ground arith

-- The parser within the two bytes of the longer form.
abbrev awaiting : WebSocketParser → (head word left : ℕ) → WebSocketParser
awaiting p head word left = record (first p head) {
  state = ParserState.payload_len16;
  mask_flag = true;
  len = 126;
  payload_length = word;
  remain_bytes = left;
}

-- The fixed part of the header with the length, in either form.
header_bytes :
    (p : WebSocketParser) (head n : ℕ) (tl : List ℕ)
    → n < 2 ^ 16
    → run_bytes 0 (reset p) (head ∷ length_field n ++ tl)
      ≡ run_bytes (1 + length (length_field n)) (headed p head (if ltb n 126 then n else 126) n) tl
unfolding run_bytes dispatch on_fin_and_opcode reset length_field
header_bytes p head n tl h = elim (Bool-cases (ltb n 126)) [
  | inl short ↦ rw short (
      run_bytes-advance 1 (first p head) _ (128 + n) tl (short_length p head n (below n 126 short)))
  | inr long ↦ rw long (
      run_bytes-advance 1 (first p head) _ 254 (n / 256 ∷ n % 256 ∷ tl) refl
      ∙ run_bytes-advance 2 (awaiting p head p.payload_length 2) _ (n / 256) (n % 256 ∷ tl) refl
      ∙ run_bytes-advance 3 (awaiting p head (store_byte p.payload_length 0 (n / 256)) 1) _
          (n % 256) tl (middle_length p head n h))
]

pub run_bytes-done :
    (i : ℕ) (p : WebSocketParser) (tl : List ℕ)
    → let q : WebSocketParser = record p { state = ParserState.done } in run_bytes i q tl ≡ (i, q)
unfolding run_bytes dispatch
run_bytes-done i p [] = refl
run_bytes-done i p (b ∷ tl) = refl

-- The parser with the whole frame behind it.
abbrev complete : WebSocketParser → (head len : ℕ) (key wire : List ℕ) → WebSocketParser
complete p head len key wire = record (headed p head len (length wire)) {
  mask = key;
  state = ParserState.done;
  payload = unmask key 0 wire;
  remain_bytes = 0;
}

body_bytes :
    (i : ℕ) (p : WebSocketParser) (head len : ℕ) (key wire tl : List ℕ)
    → length wire < 2 ^ 16
    → run_bytes i (keyed p head len (length wire) key) (wire ++ tl)
      ≡ (i + length wire, complete p head len key wire)
unfolding unmask
body_bytes i p head len key [] tl h =
    let q = keyed p head len 0 key in
    let same : i ≡ i + 0 = omega arith in run_bytes-done i q tl ∙ ap (λ j. (j, q)) same
body_bytes i p head len key (b ∷ bs) tl h =
    let n = suc (length bs) in
    let q = keyed p head len n key in
    let index : n - n ≡ 0 = omega arith in
    let fits : n ≤ max_payload_length = omega (arith, h) in
    payload_bytes i q [] b bs tl (omega arith) fits
    ∙ ap (λ j. received q tl (i + n) (unmask key j (b ∷ bs))) index
    ∙ run_bytes-done (i + n) (complete p head len key (b ∷ bs)) tl

-- What a call leaves that was made with the frame and more at the front of its buffer.
pub record Received (p : WebSocketParser) (head k0 k1 k2 k3 : ℕ) (wire : List ℕ)
    (r : ℕ × WebSocketParser) : Type 0 where
  pub consumed : r.0 ≡ length (client_frame head k0 k1 k2 k3 wire)
  pub finished : r.1.state ≡ ParserState.done
  pub fin : r.1.fin_flag ≡ bit head 128
  pub opcode : r.1.opcode ≡ head % 16
  pub error : r.1.error_code ≡ p.error_code
  pub mask : length r.1.mask ≡ 4
  pub unmasked : r.1.payload ≡ unmask (k0 ∷ k1 ∷ k2 ∷ k3 ∷ []) 0 wire

-- On a parser that was reset, and on a buffer that begins with a client's frame of less than 2 ^ 16
-- payload octets, `ParserExecute` consumes exactly that frame, whatever follows it, sets no error, and
-- leaves the parser done with the frame's FIN bit, opcode and unmasked payload.
pub parser_execute-client_frame :
    (p : WebSocketParser) (head k0 k1 k2 k3 : ℕ) (wire rest : List ℕ)
    → length p.mask ≡ 4
    → length wire < 2 ^ 16
    → Received p head k0 k1 k2 k3 wire
        (parser_execute (reset p) (client_frame head k0 k1 k2 k3 wire ++ rest))
unfolding parser_execute reset client_frame
parser_execute-client_frame p head k0 k1 k2 k3 wire rest hm hw =
    let n = length wire in
    let field = length_field n in
    let len = if ltb n 126 then n else 126 in
    let key : List ℕ = k0 ∷ k1 ∷ k2 ∷ k3 ∷ [] in
    let tl = wire ++ rest in
    let i = 1 + length field in
    let runs : run_bytes 0 (reset p) ((head ∷ field) ++ (k0 ∷ k1 ∷ k2 ∷ k3 ∷ tl))
        ≡ (i + 4 + n, complete p head len key wire) =
      header_bytes p head n (k0 ∷ k1 ∷ k2 ∷ k3 ∷ tl) hw
      ∙ key_bytes i p head len n k0 k1 k2 k3 tl hm
      ∙ body_bytes (i + 4) p head len key wire rest hw in
    let split : (head ∷ field ++ (k0 ∷ k1 ∷ k2 ∷ k3 ∷ wire)) ++ rest
        ≡ (head ∷ field) ++ (k0 ∷ k1 ∷ k2 ∷ k3 ∷ tl) =
      append_assoc (head ∷ field) (k0 ∷ k1 ∷ k2 ∷ k3 ∷ wire) rest in
    subst (Received p head k0 k1 k2 k3 wire) (sym (ap (run_bytes 0 (reset p)) split ∙ runs))
      (record {
        consumed = omega (arith, length-append (head ∷ field) (k0 ∷ k1 ∷ k2 ∷ k3 ∷ wire));
        finished = refl;
        fin = refl;
        opcode = refl;
        error = refl;
        mask = refl;
        unmasked = refl;
      })
