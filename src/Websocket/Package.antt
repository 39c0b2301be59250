-- ===== src/Websocket/Package.antt =====
-- A frame that the server sends: `encapsulation_package` of src/protocol/websocket/websocket_handler.cc, and
-- the layout of such a frame by RFC 6455.
use jdocs.Base.{
  ap₂, ◌/◌, ℕ, ◌+◌, ◌%◌, ◌^◌, ◌<◌, ◌≡◌, ap, bit_or, refl, suc, Bool-cases, inl, inr, Bool, true,
  false, List, [], ◌∷◌, ◌++◌, arith, length, length-append, ltb, if◌then◌else◌,
}
use jdocs.Websocket.Bytes.{le_bytes, reversed}

-- What stands between the first byte and the payload: `htobe16` and `htobe64` store big-endian.
unfoldable pub frame_length : ℕ → List ℕ
unfolding le_bytes reversed
frame_length n =
    if ltb n 126
    then n % 128 ∷ []
    else if ltb n 65535
    then 126 ∷ reversed (le_bytes 2 (n % 2 ^ 16))
    else 127 ∷ reversed (le_bytes 8 n)

unfoldable pub encapsulation_package : Bool → (opcode : ℕ) → List ℕ → List ℕ
unfolding frame_length
encapsulation_package fin_flag opcode payload =
    bit_or (if fin_flag then 128 else 0) opcode ∷ frame_length (length payload) ++ payload

abbrev pub first_opcode : Bool → ℕ
first_opcode once_flag = if once_flag then 1 else 0

-- The payload length of a frame without a mask in its shortest form (RFC 6455, section 5.2), below 2 ^ 16
-- octets.
unfoldable pub server_length : ℕ → List ℕ
server_length n = if ltb n 126 then n ∷ [] else 126 ∷ n / 256 ∷ n % 256 ∷ []

-- A frame without a mask as RFC 6455 lays it out: FIN is the highest bit of the first octet, and the opcode
-- its low half.
unfoldable pub server_frame : (fin : Bool) (opcode : ℕ) → List ℕ → List ℕ
unfolding server_length
server_frame fin opcode payload =
    ((if fin then 128 else 0) + opcode) ∷ server_length (length payload) ++ payload

pub frame_length-server_length : (n : ℕ) → n < 65535 → frame_length n ≡ server_length n
unfolding frame_length server_length le_bytes reversed
frame_length-server_length n h = elim (Bool-cases (ltb n 126)) [
  | inl short ↦ let same : n % 128 ≡ n = ground (arith, short) in rw short (ap (λ k. k ∷ []) same)
  | inr long ↦
      let middle : ltb n 65535 ≡ true = ground (arith, h) in
      let high : n % 65536 / 256 % 256 ≡ n / 256 = omega (arith, h) in
      let low : n % 65536 % 256 ≡ n % 256 = omega (arith, h) in
      rw (long, middle) (ap₂ (λ a b. 126 ∷ a ∷ b ∷ []) high low)
]

-- What is written to a buffer is a frame by the RFC.
pub encapsulation_package-server_frame :
    (fin once_flag : Bool) (payload : List ℕ)
    → length payload < 65535
    → encapsulation_package fin (first_opcode once_flag) payload
      ≡ server_frame fin (if once_flag then 1 else 0) payload
unfolding encapsulation_package server_frame
encapsulation_package-server_frame fin once_flag payload h =
    ap₂ (λ head field. head ∷ field ++ payload) (first_octet fin once_flag)
      (frame_length-server_length (length payload) h)
  where
    first_octet :
        (fin once : Bool)
        → bit_or (if fin then 128 else 0) (first_opcode once)
          ≡ (if fin then 128 else 0) + (if once then 1 else 0)
    first_octet true true = refl
    first_octet true false = refl
    first_octet false true = refl
    first_octet false false = refl

pub length-frame_length :
    (n : ℕ) → length (frame_length n) ≡ (if ltb n 126 then 1 else if ltb n 65535 then 3 else 9)
unfolding frame_length le_bytes reversed
length-frame_length n = ground arith

pub length-encapsulation_package :
    (fin_flag : Bool) (opcode : ℕ) (payload : List ℕ)
    → length (encapsulation_package fin_flag opcode payload)
      ≡ suc (length (frame_length (length payload)) + length payload)
unfolding encapsulation_package
length-encapsulation_package fin_flag opcode payload =
    ap suc (length-append (frame_length (length payload)) payload)
