-- ===== src/Websocket/Stream.antt =====
-- A buffer of whole frames in RecvDataHandle of src/protocol/websocket/websocket_handler.cc.
use jdocs.Base.{
  if_true, if_false, ℕ, suc, ◌+◌, ◌^◌, ◌%◌, ◌<◌, ◌≡◌, refl, sym, ap, ◌∙◌, Bool, true, false,
  Bool-cases, inl, inr, List, [], ◌∷◌, ◌++◌, append_assoc, some, arith, length, length-append, drop,
  ltb, ◌==◌, if◌then◌else◌,
}
use jdocs.Websocket.Parser.{ParserState, WebSocketParser, bit, run_bytes, parser_execute, reset}
use jdocs.Websocket.Frame.{unmask, client_frame}
use jdocs.Websocket.Receive.{Received, parser_execute-client_frame}
use jdocs.Websocket.Handle.{continue_frame, frame_handle}
use jdocs.Websocket.Control.{Service, Peer, control_frame_handle, data_frame_handle, handle_frame}
use jdocs.Websocket.Loop.{is_done, not_done, recv_rounds, recv_data_handle}
use jdocs.Websocket.Progress.{reset-open, recv_rounds-returns}

pub record ClientFrame : Type 0 where
  pub head : ℕ
  pub k0 : ℕ
  pub k1 : ℕ
  pub k2 : ℕ
  pub k3 : ℕ
  pub wire : List ℕ

unfoldable pub octets : ClientFrame → List ℕ
octets f = client_frame f.head f.k0 f.k1 f.k2 f.k3 f.wire

unfoldable pub stream : List ClientFrame → List ℕ
stream [] = []
stream (f ∷ fs) = octets f ++ stream fs

unfoldable pub Short : List ClientFrame → Type 0
Short [] = Unit
Short (f ∷ fs) = (length f.wire < 2 ^ 16) × Short fs

-- What the handlers read of a parser.
abbrev pub view : (fin_flag : Bool) (opcode : ℕ) (payload : List ℕ) → WebSocketParser
view fin_flag opcode payload = record {
  state = ParserState.done;
  fin_flag = fin_flag;
  rsv1_flag = false;
  rsv2_flag = false;
  rsv3_flag = false;
  opcode = opcode;
  mask_flag = true;
  len = 0;
  error_code = 0;
  mask = [];
  payload_length = 0;
  remain_bytes = 0;
  payload = payload;
}

-- A frame by RFC 6455, without a parser.
abbrev pub meant : ClientFrame → WebSocketParser
meant f = view (bit f.head 128) (f.head % 16) (unmask (f.k0 ∷ f.k1 ∷ f.k2 ∷ f.k3 ∷ []) 0 f.wire)

drop-append : (xs ys : List ℕ) → drop (length xs) (xs ++ ys) ≡ ys
drop-append [] ys = refl
drop-append (x ∷ xs) ys = drop-append xs ys

length-octets : (f : ClientFrame) → 0 < length (octets f)
unfolding octets client_frame
length-octets f = omega arith

nil-length : (xs : List ℕ) → length xs ≡ 0 → xs ≡ []
nil-length [] e = refl
nil-length (x ∷ xs) e = absurd (omega (arith, e))

module _ {S : Type 0} (serve : Service S) where
  -- Frame after frame, until the connection is closed.
  unfoldable pub deliver : Peer S → List ClientFrame → Peer S
  deliver w [] = w
  deliver w (f ∷ fs) =
      let rest = deliver (handle_frame serve w (meant f)) fs in if w.handler.closed then w else rest

  handle_frame-view :
      (w : Peer S) (p : WebSocketParser)
      → handle_frame serve w p ≡ handle_frame serve w (view p.fin_flag p.opcode p.payload)
  unfolding handle_frame control_frame_handle data_frame_handle frame_handle continue_frame
  handle_frame-view w p = refl

  handle_frame-meant :
      (w : Peer S) (p : WebSocketParser) (f : ClientFrame) (r : ℕ × WebSocketParser)
      → Received p f.head f.k0 f.k1 f.k2 f.k3 f.wire r
      → handle_frame serve w r.1 ≡ handle_frame serve w (meant f)
  handle_frame-meant w p f r got =
      let q = r.1 in
      handle_frame-view w q
      ∙ ap (λ b. handle_frame serve w (view b q.opcode q.payload)) got.fin
      ∙ ap (λ n. handle_frame serve w (view (bit f.head 128) n q.payload)) got.opcode
      ∙ ap (λ bs. handle_frame serve w (view (bit f.head 128) (f.head % 16) bs)) got.unmasked

  closed-returns :
      (w : Peer S) (p : WebSocketParser) (buffer : List ℕ)
      → w.handler.closed ≡ true
      → recv_data_handle serve w p buffer ≡ some (w, p)
  unfolding recv_data_handle
  closed-returns w p buffer gone = if_true _ _ _ gone

  empty-returns :
      (w : Peer S) (p : WebSocketParser)
      → p.error_code ≡ 0
      → recv_data_handle serve w (reset p) [] ≡ some (w, reset p)
  unfolding recv_data_handle recv_rounds parser_execute run_bytes reset not_done is_done
  empty-returns w p fine = elim (Bool-cases w.handler.closed) [
    | inl gone ↦ if_true _ _ _ gone
    | inr here ↦
        if_false _ _ _ here
        ∙ ap (λ v. some (v, reset p)) (if_true (p.error_code == 0) _ _ (ground (arith, fine)))
  ]

  -- A frame at the front of the buffer is one round of the loop.
  round :
      (w : Peer S) (p : WebSocketParser) (f : ClientFrame) (tl : List ℕ)
      → length p.mask ≡ 4
      → p.error_code ≡ 0
      → length f.wire < 2 ^ 16
      → w.handler.closed ≡ false
      → let q = (parser_execute (reset p) (octets f ++ tl)).1 in
        (recv_data_handle serve w (reset p) (octets f ++ tl)
          ≡ recv_data_handle serve (handle_frame serve w (meant f)) (reset q) tl)
        × (length q.mask ≡ 4)
        × (q.error_code ≡ 0)
  unfolding recv_data_handle octets is_done
  round w p f tl hm fine short here =
      let got = parser_execute-client_frame p f.head f.k0 f.k1 f.k2 f.k3 f.wire tl hm short in
      let buffer = octets f ++ tl in
      let (parsed, q) = parser_execute (reset p) buffer in
      let error : q.error_code ≡ 0 = got.error ∙ fine in
      let done : is_done q.state ≡ true = ap is_done got.finished in
      let behind : drop parsed buffer ≡ tl =
        ap (λ n. drop n buffer) got.consumed ∙ drop-append (octets f) tl in
      let v = handle_frame serve w q in
      let sizes : length buffer ≡ parsed + length tl =
        length-append (octets f) tl ∙ ap (λ n. n + length tl) (sym got.consumed) in
      let some_octet = length-octets f in
      let (r, same) =
        recv_rounds-returns serve (suc (length tl)) v (reset q) tl (reset-open q) (omega arith) in
      let next : (if ltb parsed (length buffer)
            then recv_rounds serve (length buffer) v (reset q) (drop parsed buffer)
            else some (v, reset q))
          ≡ recv_data_handle serve v (reset q) tl =
        elim (Bool-cases (ltb parsed (length buffer))) [
          | inl more ↦
              if_true _ _ _ more
              ∙ ap (recv_rounds serve (length buffer) v (reset q)) behind
              ∙ same (length buffer) (omega (arith, sizes, got.consumed, some_octet))
              ∙ sym (same (suc (length tl)) (omega arith))
          | inr all ↦
              let nothing : tl ≡ [] = nil-length tl (ground (arith, sizes)) in
              if_false _ _ _ all
              ∙ sym (empty-returns v q error)
              ∙ ap (recv_data_handle serve v (reset q)) (sym nothing)
        ] in
      (
        if_false _ _ _ here
            ∙ if_true _ _ _ done
            ∙ next
            ∙ ap (λ u. recv_data_handle serve u (reset q) tl) (handle_frame-meant w p f _ got),
        got.mask,
        error,
      )

  -- What a call leaves that was made with the frames and `rest` behind them.
  pub record Streamed (w : Peer S) (p : WebSocketParser) (fs : List ClientFrame) (rest : List ℕ)
      : Type 0 where
    pub parser : WebSocketParser
    pub mask : length parser.mask ≡ 4
    pub error : parser.error_code ≡ 0
    pub outcome : Peer S × WebSocketParser
    pub returns : recv_data_handle serve w (reset p) (stream fs ++ rest) ≡ some outcome
    pub continues : recv_data_handle serve (deliver w fs) (reset parser) rest ≡ some outcome

  returns :
      (w : Peer S) (p : WebSocketParser) (buffer : List ℕ)
      → (r : Peer S × WebSocketParser) × (recv_data_handle serve w (reset p) buffer ≡ some r)
  unfolding recv_data_handle
  returns w p buffer =
      let n = suc (length buffer) in
      let (r, same) = recv_rounds-returns serve n w (reset p) buffer (reset-open p) (omega arith) in
      (r, same n (omega arith))

  -- For a parser that was reset and has met no error, and a buffer that begins with whole client's frames
  -- of less than 2 ^ 16 payload octets each: RecvDataHandle returns, and it leaves what a call with the
  -- octets behind the frames leaves, once the frames, read as RFC 6455 has them, were handled one after
  -- the other until one closes the connection.
  pub recv_data_handle-Streamed :
      (w : Peer S) (p : WebSocketParser) (fs : List ClientFrame) (rest : List ℕ)
      → length p.mask ≡ 4
      → p.error_code ≡ 0
      → Short fs
      → Streamed w p fs rest
  unfolding stream deliver Short
  recv_data_handle-Streamed w p [] rest hm fine short =
      let (r, e) = returns w p rest in
      record { parser = p; mask = hm; error = fine; outcome = r; returns = e; continues = e }
  recv_data_handle-Streamed w p (f ∷ fs) rest hm fine (one, short) =
      elim (Bool-cases w.handler.closed) [
        | inl gone ↦ record {
          parser = p;
          mask = hm;
          error = fine;
          outcome = (w, reset p);
          returns = closed-returns w (reset p) _ gone;
          continues =
              ap (λ v. recv_data_handle serve v (reset p) rest) (if_true _ _ _ gone)
              ∙ closed-returns w (reset p) rest gone;
        }
        | inr here ↦
            let tl = stream fs ++ rest in
            let v = handle_frame serve w (meant f) in
            let q = (parser_execute (reset p) (octets f ++ tl)).1 in
            let (e, mask, error) = round w p f tl hm fine one here in
            let s = recv_data_handle-Streamed v q fs rest mask error short in
            record {
              parser = s.parser;
              mask = s.mask;
              error = s.error;
              outcome = s.outcome;
              returns =
                  ap (recv_data_handle serve w (reset p)) (append_assoc (octets f) (stream fs) rest)
                  ∙ e
                  ∙ s.returns;
              continues =
                  ap (λ u. recv_data_handle serve u (reset s.parser) rest) (if_false _ _ _ here)
                  ∙ s.continues;
            }
      ]
