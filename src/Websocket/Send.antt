-- ===== src/Websocket/Send.antt =====
-- How the server sends a payload: `get_affordable_payload_size` and `send_data_frame` of
-- src/protocol/websocket/websocket_handler.cc. A frame is the bytes that are written to the buffer.
use jdocs.Base.{
  ap₂, sym, subst, append-nil, ℕ, ◌+◌, ◌-◌, ◌≤◌, ◌<◌, ◌≡◌, ◌∙◌, ap, min, not, refl, suc, zero, ◌==◌,
  ◌*◌, Bool-cases, inl, inr, take-all, take-append-drop, drop, length-drop, Bool, true, false, List,
  [], ◌∷◌, ◌++◌, arith, length, take, length-take, ltb, leb, if◌then◌else◌,
}
use jdocs.Websocket.Package.{
  encapsulation_package, first_opcode, server_frame, encapsulation_package-server_frame,
  length-frame_length, length-encapsulation_package,
}

unfoldable pub get_affordable_payload_size : (payload_length buffer_size : ℕ) → ℕ
get_affordable_payload_size payload_length buffer_size =
    let room : ℕ =
      if ltb payload_length 126
      then buffer_size - 2
      else if ltb payload_length 65535
      then (if ltb 4 buffer_size then buffer_size - 4 else 0)
      else if ltb 10 buffer_size
      then buffer_size - 10
      else 0 in
    if leb buffer_size 2 then 0 else if ltb payload_length room then payload_length else room

-- kBufferSize of src/core/buffer.h.
abbrev pub buffer_size : ℕ
buffer_size = 2048

-- The frames that were prepared for sending, and whether the connection was closed for want of a buffer.
pub record Sent : Type 0 where
  pub frames : List (List ℕ)
  pub closed : Bool

-- The `do` loop, with the number of send buffers that are free.
unfoldable pub send_rounds : ℕ → (once_flag : Bool) → List ℕ → Sent
send_rounds zero once_flag bytes = record { frames = []; closed = true }
send_rounds (suc free) once_flag bytes =
    let payload_length = get_affordable_payload_size (length bytes) buffer_size in
    let fin_flag = not (ltb payload_length (length bytes)) in
    let frame =
      encapsulation_package fin_flag (first_opcode once_flag) (take payload_length bytes) in
    let later = send_rounds free false (drop payload_length bytes) in
    if length bytes - payload_length == 0
    then record { frames = frame ∷ []; closed = false }
    else record later { frames = frame ∷ later.frames }

unfoldable pub send_data_frame : ℕ → List ℕ → Sent
unfolding send_rounds
send_data_frame free bytes =
    if length bytes == 0
    then record { frames = []; closed = false }
    else send_rounds free true bytes

-- A fragmented text message (RFC 6455, section 5.4): FIN on the last frame alone, the opcode 1 on the first
-- and 0 on the others.
unfoldable pub message : (is_first : Bool) → List ℕ → List (List ℕ) → List (List ℕ)
unfolding server_frame
message is_first c [] = server_frame true (if is_first then 1 else 0) c ∷ []
message is_first c (d ∷ cs) = server_frame false (if is_first then 1 else 0) c ∷ message false d cs

unfoldable pub joined : List (List ℕ) → List ℕ
joined [] = []
joined (c ∷ cs) = c ++ joined cs

unfoldable pub Fit : List (List ℕ) → Type 0
Fit [] = Unit
Fit (f ∷ fs) = (length f ≤ buffer_size) × Fit fs

frame_room :
    (n size m : ℕ)
    → 10 < size
    → get_affordable_payload_size n size ≡ m
    → (m ≤ n)
      × (m + (1 + (if ltb m 126 then 1 else if ltb m 65535 then 3 else 9)) ≤ size)
      × (min n (size - 10) ≤ m)
unfolding get_affordable_payload_size
frame_room n size m h e = ground arith

pub record Delivered (once_flag : Bool) (bytes : List ℕ) (sent : Sent) : Type 0 where
  pub chunk : List ℕ
  pub chunks : List (List ℕ)
  pub whole : chunk ++ joined chunks ≡ bytes
  pub framed : sent.frames ≡ message once_flag chunk chunks
  pub fit : Fit sent.frames
  pub still_open : sent.closed ≡ false

-- A frame with what `get_affordable_payload_size` lets through fits in its buffer.
frame_fits :
    (bytes : List ℕ) (fin_flag : Bool) (opcode m : ℕ)
    → get_affordable_payload_size (length bytes) buffer_size ≡ m
    → length (encapsulation_package fin_flag opcode (take m bytes)) ≤ buffer_size
frame_fits bytes fin_flag opcode m e =
    let (within, room, _) = frame_room (length bytes) buffer_size m (omega arith) e in
    let taken : length (take m bytes) ≡ m = length-take m bytes ∙ omega (arith, within) in
    let head = length-frame_length m in
    rw (length-encapsulation_package fin_flag opcode (take m bytes), taken, head) (ground arith)

small_take :
    (bytes : List ℕ) (m : ℕ)
    → get_affordable_payload_size (length bytes) buffer_size ≡ m
    → length (take m bytes) < 65535
small_take bytes m e =
    let (within, room, _) = frame_room (length bytes) buffer_size m (omega arith) e in
    let taken : length (take m bytes) ≡ m = length-take m bytes ∙ omega (arith, within) in
    omega (arith, taken, room)

small_chunk :
    (bytes : List ℕ) (m : ℕ)
    → get_affordable_payload_size (length bytes) buffer_size ≡ m
    → (length bytes - m == 0) ≡ true
    → length bytes < 65535
small_chunk bytes m e h =
    let (_, room, _) = frame_room (length bytes) buffer_size m (omega arith) e in
    ground (arith, room, h)

last_round :
    (free : ℕ) (once_flag : Bool) (bytes : List ℕ) (m : ℕ)
    → get_affordable_payload_size (length bytes) buffer_size ≡ m
    → (length bytes - m == 0) ≡ true
    → Delivered once_flag bytes (send_rounds (suc free) once_flag bytes)
unfolding send_rounds message joined Fit
last_round free once_flag bytes m e h =
    let fin : ltb m (length bytes) ≡ false = ground arith in
    let all : take m bytes ≡ bytes = take-all m bytes (ground arith) in
    let frame = encapsulation_package true (first_opcode once_flag) bytes in
    let sent : send_rounds (suc free) once_flag bytes
        ≡ record { frames = frame ∷ []; closed = false } =
      rw (e, h, fin, all) in
    subst (Delivered once_flag bytes) (sym sent) (record {
      chunk = bytes;
      chunks = [];
      whole = append-nil bytes;
      framed =
          ap (λ f. f ∷ [])
            (encapsulation_package-server_frame true once_flag bytes (small_chunk bytes m e h));
      fit = (
        subst (λ c. length (encapsulation_package true (first_opcode once_flag) c) ≤ buffer_size)
            all (frame_fits bytes true (first_opcode once_flag) m e),
        tt,
      );
      still_open = refl;
    })

more_rounds :
    (free : ℕ) (once_flag : Bool) (bytes : List ℕ) (m : ℕ)
    → get_affordable_payload_size (length bytes) buffer_size ≡ m
    → (length bytes - m == 0) ≡ false
    → Delivered false (drop m bytes) (send_rounds free false (drop m bytes))
    → Delivered once_flag bytes (send_rounds (suc free) once_flag bytes)
unfolding send_rounds message joined Fit
more_rounds free once_flag bytes m e h later =
    let less : ltb m (length bytes) ≡ true = ground arith in
    let rest = send_rounds free false (drop m bytes) in
    let frame = encapsulation_package false (first_opcode once_flag) (take m bytes) in
    let sent : send_rounds (suc free) once_flag bytes
        ≡ record { frames = frame ∷ rest.frames; closed = rest.closed } =
      rw (e, h, less) in
    subst (Delivered once_flag bytes) (sym sent) (record {
      chunk = take m bytes;
      chunks = later.chunk ∷ later.chunks;
      whole = ap (λ c. take m bytes ++ c) later.whole ∙ take-append-drop m bytes;
      framed =
          ap₂ ◌∷◌
            (encapsulation_package-server_frame false once_flag (take m bytes)
              (small_take bytes m e))
            later.framed;
      fit = (frame_fits bytes false (first_opcode once_flag) m e, later.fit);
      still_open = later.still_open;
    })

positive : (n : ℕ) → (n == 0) ≡ false → 0 < n
positive n h = ground arith

pub send_rounds-Delivered :
    (free : ℕ) (once_flag : Bool) (bytes : List ℕ)
    → 0 < length bytes
    → length bytes ≤ free * 2038
    → Delivered once_flag bytes (send_rounds free once_flag bytes)
send_rounds-Delivered zero once_flag bytes pos h = absurd (omega (arith, pos, h))
send_rounds-Delivered (suc free) once_flag bytes pos h =
    let m = get_affordable_payload_size (length bytes) buffer_size in
    let (within, _, progress) = frame_room (length bytes) buffer_size m (omega arith) refl in
    elim (Bool-cases (length bytes - m == 0)) [
      | inl last ↦ last_round free once_flag bytes m refl last
      | inr more ↦
          let left : 0 < length bytes - m = positive (length bytes - m) more in
          more_rounds free once_flag bytes m refl more (
            send_rounds-Delivered free false (drop m bytes) (rw (length-drop m bytes) left)
              (rw (length-drop m bytes) (omega (arith, progress, h, left))))
    ]

-- With a payload that is not empty, and free send buffers for 2038 octets of it each,
-- `send_data_frame` leaves the connection open and prepares one message. Each frame is one of RFC 6455
-- without a mask, octet by octet, and fits in a send buffer: the first frame alone has the text opcode, the
-- last one alone has FIN, and the payloads of the frames one after the other are the payload.
pub send_data_frame-Delivered :
    (free : ℕ) (bytes : List ℕ)
    → 0 < length bytes
    → length bytes ≤ free * 2038
    → Delivered true bytes (send_data_frame free bytes)
unfolding send_data_frame
send_data_frame-Delivered free bytes pos h =
    let nonempty : (length bytes == 0) ≡ false = ground arith in
    rw nonempty (send_rounds-Delivered free true bytes pos h)
