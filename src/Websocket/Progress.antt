-- ===== src/Websocket/Progress.antt =====
-- The loop of RecvDataHandle in src/protocol/websocket/websocket_handler.cc ends: a call of ParserExecute
-- that is done has used a byte.
use jdocs.Base.{
  if_true, if_false, ℕ, zero, suc, ◌+◌, ◌-◌, ◌%◌, ◌^◌, ◌<◌, ◌≡◌, ◌⊎◌, refl, sym, ap, ◌∙◌, subst,
  true, false, Bool-cases, inl, inr, List, [], ◌∷◌, some, arith, length, drop, length-drop, ltb,
  ◌==◌,
}
use jdocs.Websocket.Bytes.{store_byte, be16toh, be64toh}
use jdocs.Websocket.Parser.{
  ParserState, WebSocketParser, advance, reject, stay, Outcome, max_payload_length, bit, one_less,
  to_masking_key, on_fin_and_opcode, on_mask_and_len, on_payload_len16, on_payload_len64,
  on_masking_key, on_payload_data, dispatch, run_bytes, parser_execute, reset,
}
use jdocs.Websocket.Receive.{run_bytes-done}
use jdocs.Websocket.Control.{Service, Peer, handle_frame}
use jdocs.Websocket.Loop.{is_done, not_done, recv_rounds}

-- A byte is used, or refused by a parser that is not done then.
Uses : Outcome → Type 0
Uses (flow, q) = (flow ≡ advance) ⊎ ((flow ≡ reject) × (is_done q.state ≡ false))

to_masking_key-Uses :
    (p : WebSocketParser) (n : ℕ) → is_done p.state ≡ false → Uses (to_masking_key p n)
unfolding Uses to_masking_key
to_masking_key-Uses p n h = elim (Bool-cases (ltb max_payload_length n)) [
  | inl big ↦ rw big (inr (refl, h))
  | inr fits ↦ rw fits (inl refl)
]

on_mask_and_len-Uses :
    (p : WebSocketParser) (b : ℕ) → is_done p.state ≡ false → Uses (on_mask_and_len p b)
unfolding Uses on_mask_and_len
on_mask_and_len-Uses p b h = elim (Bool-cases (bit b 128)) [
  | inr plain ↦ rw plain (inr (refl, h))
  | inl masked ↦ rw masked (elim (Bool-cases (ltb (b % 128) 126)) [
    | inl short ↦
        rw short (to_masking_key-Uses (record p { mask_flag = true; len = b % 128 }) (b % 128) h)
    | inr long ↦ rw long (elim (Bool-cases (b % 128 == 126)) [
      | inl middle ↦ rw middle (inl refl)
      | inr large ↦ rw large (inl refl)
    ])
  ])
]

on_payload_len16-Uses :
    (p : WebSocketParser) (b : ℕ) → is_done p.state ≡ false → Uses (on_payload_len16 p b)
unfolding Uses on_payload_len16
on_payload_len16-Uses p b h =
    let left = one_less p.remain_bytes in
    let word = store_byte p.payload_length (2 - p.remain_bytes) b in
    let q : WebSocketParser = record p { payload_length = word; remain_bytes = left } in
    elim (Bool-cases (left == 0)) [
      | inl last ↦ rw last (to_masking_key-Uses q (be16toh (word % 2 ^ 16)) h)
      | inr more ↦ rw more (inl refl)
    ]

on_payload_len64-Uses :
    (p : WebSocketParser) (b : ℕ) → is_done p.state ≡ false → Uses (on_payload_len64 p b)
unfolding Uses on_payload_len64
on_payload_len64-Uses p b h =
    let left = one_less p.remain_bytes in
    let word = store_byte p.payload_length (8 - p.remain_bytes) b in
    let q : WebSocketParser = record p { payload_length = word; remain_bytes = left } in
    elim (Bool-cases (left == 0)) [
      | inl last ↦ rw last (to_masking_key-Uses q (be64toh word) h)
      | inr more ↦ rw more (inl refl)
    ]

on_masking_key-advance : (p : WebSocketParser) (b : ℕ) → (on_masking_key p b).0 ≡ advance
unfolding on_masking_key
on_masking_key-advance p b = elim (Bool-cases (one_less p.remain_bytes == 0)) [
  | inr more ↦ rw more refl
  | inl last ↦ rw last (elim (Bool-cases (p.payload_length == 0)) [
    | inl empty ↦ rw empty refl
    | inr full ↦ rw full refl
  ])
]

on_payload_data-advance : (p : WebSocketParser) (b : ℕ) → (on_payload_data p b).0 ≡ advance
unfolding on_payload_data
on_payload_data-advance p b = elim (Bool-cases (one_less p.remain_bytes == 0)) [
  | inl last ↦ rw last refl
  | inr more ↦ rw more refl
]

dispatch-Uses :
    (s : ParserState) (p : WebSocketParser) (b : ℕ)
    → is_done s ≡ false
    → is_done p.state ≡ false
    → Uses (dispatch s p b)
unfolding Uses dispatch on_fin_and_opcode is_done
dispatch-Uses ParserState.fin_and_opcode p b open_ h = inl refl
dispatch-Uses ParserState.mask_and_len p b open_ h = on_mask_and_len-Uses p b h
dispatch-Uses ParserState.payload_len16 p b open_ h = on_payload_len16-Uses p b h
dispatch-Uses ParserState.payload_len64 p b open_ h = on_payload_len64-Uses p b h
dispatch-Uses ParserState.masking_key p b open_ h = inl (on_masking_key-advance p b)
dispatch-Uses ParserState.payload_data p b open_ h = inl (on_payload_data-advance p b)
dispatch-Uses ParserState.done p b open_ h = absurd (cc)

is_done-true : (s : ParserState) → is_done s ≡ true → s ≡ ParserState.done
unfolding is_done
is_done-true s h = ground arith

run_bytes-at_done :
    (i : ℕ) (q : WebSocketParser) (tl : List ℕ) → is_done q.state ≡ true → (run_bytes i q tl).0 ≡ i
run_bytes-at_done i q tl h =
    let same : q ≡ record q { state = ParserState.done } =
      ap (λ (s : ParserState). record q { state = s }) (is_done-true q.state h) in
    ap (λ r. (run_bytes i r tl).0) same ∙ ap (λ r. r.0) (run_bytes-done i q tl)

abbrev finish : ℕ → List ℕ → Outcome → ℕ × WebSocketParser
finish i rest (flow, q) = elim flow [
  | advance ↦ run_bytes (i + 1) q rest
  | reject ↦ (0, q)
  | stay ↦ (i, q)
]

finish-progress :
    (i : ℕ) (rest : List ℕ) (o : Outcome)
    → Uses o
    → is_done (finish i rest o).1.state ≡ true
    → ((q : WebSocketParser)
        → is_done q.state ≡ false
        → is_done (run_bytes (i + 1) q rest).1.state ≡ true
        → i + 1 < (run_bytes (i + 1) q rest).0)
    → i < (finish i rest o).0
unfolding Uses
finish-progress i rest (stay, q) used done ih = absurd (ground arith)
finish-progress i rest (reject, q) used done ih = absurd (ground arith)
finish-progress i rest (advance, q) used done ih = elim (Bool-cases (is_done q.state)) [
  | inl now ↦ let same = run_bytes-at_done (i + 1) q rest now in omega (arith, same)
  | inr later ↦ let more = ih q later done in omega (arith, more)
]

run_bytes-progress :
    (i : ℕ) (p : WebSocketParser) (bs : List ℕ)
    → is_done p.state ≡ false
    → is_done (run_bytes i p bs).1.state ≡ true
    → i < (run_bytes i p bs).0
unfolding run_bytes
run_bytes-progress i p [] h done = absurd (cc)
run_bytes-progress i p (b ∷ rest) h done =
    finish-progress i rest (dispatch p.state p b) (dispatch-Uses p.state p b h h) done
      (λ q open_ later. run_bytes-progress (i + 1) q rest open_ later)

parser_execute-open :
    (p : WebSocketParser) (buffer : List ℕ)
    → is_done p.state ≡ false
    → parser_execute p buffer ≡ run_bytes 0 p buffer
unfolding parser_execute is_done
parser_execute-open p buffer h = ground arith

pub reset-open : (p : WebSocketParser) → is_done (reset p).state ≡ false
unfolding reset is_done
reset-open p = refl

-- A parser that was not done and is done now has used a byte.
parser_execute-progress :
    (p : WebSocketParser) (buffer : List ℕ)
    → is_done p.state ≡ false
    → is_done (parser_execute p buffer).1.state ≡ true
    → 0 < (parser_execute p buffer).0
parser_execute-progress p buffer h done =
    let same = parser_execute-open p buffer h in
    subst (λ r. 0 < r.0) (sym same)
      (run_bytes-progress 0 p buffer h (subst (λ r. is_done r.1.state ≡ true) same done))

module _ {S : Type 0} (serve : Service S) where
  -- The loop returns on a parser that is not done, and as long as the fuel exceeds the length of the buffer, it returns the same.
  pub recv_rounds-returns :
      (fuel : ℕ) (w : Peer S) (p : WebSocketParser) (buffer : List ℕ)
      → is_done p.state ≡ false
      → length buffer < fuel
      → (r : Peer S × WebSocketParser) × ((n : ℕ)
          → length buffer < n
          → recv_rounds serve n w p buffer ≡ some r)
  unfolding recv_rounds
  recv_rounds-returns zero w p buffer h enough = absurd (omega (arith, enough))
  recv_rounds-returns (suc fuel) w p buffer h enough = elim (Bool-cases w.handler.closed) [
    | inl gone ↦ ((w, p), λ n less. once n less (λ m more_fuel. if_true _ _ _ gone))
    | inr here ↦ elim (Bool-cases (is_done q.state)) [
      | inr waits ↦ (
        (not_done w q, q),
        λ n less. once n less (λ m more_fuel. if_false _ _ _ here ∙ if_false _ _ _ waits),
      )
      | inl done ↦ elim (Bool-cases (ltb parsed (length buffer))) [
        | inr all ↦ (
          (v, reset q),
          λ n less.
              once n less
                (λ m more_fuel. if_false _ _ _ here ∙ if_true _ _ _ done ∙ if_false _ _ _ all),
        )
        | inl more ↦
            let left = length-drop parsed buffer in
            let ahead = parser_execute-progress p buffer h done in
            let (r, same) =
              recv_rounds-returns fuel v (reset q) (drop parsed buffer) (reset-open q)
                (ground (arith, left, ahead, enough)) in
            (
              r,
              λ n less. once n less (λ m more_fuel.
                  if_false _ _ _ here
                  ∙ if_true _ _ _ done
                  ∙ if_true _ _ _ more
                  ∙ same m (ground (arith, left, ahead, more_fuel))),
            )
      ]
    ]
  ]
    where
      parsed : ℕ
      parsed = (parser_execute p buffer).0

      q : WebSocketParser
      q = (parser_execute p buffer).1

      v : Peer S
      v = handle_frame serve w q

      once :
          {r : Peer S × WebSocketParser} (n : ℕ)
          → length buffer < n
          → ((m : ℕ) → length buffer < suc m → recv_rounds serve (suc m) w p buffer ≡ some r)
          → recv_rounds serve n w p buffer ≡ some r
      once zero less f = absurd (omega (arith, less))
      once (suc m) less f = f m less
