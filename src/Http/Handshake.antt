-- ===== src/Http/Handshake.antt =====
-- What `ParserExecute` of src/protocol/http/http_parser.cc promises for a whole buffer.
use jdocs.Base.{
  ℕ, suc, ◌+◌, ◌<◌, ◌≤◌, ◌≡◌, ◌≢◌, refl, sym, ap, ◌∙◌, true, false, List, [], ◌∷◌, ◌++◌, Option,
  none, some, arith, length,
}
use jdocs.Http.Flag
use jdocs.Http.State.{ParserState, HttpParser, Flow, advance, again, reject, accept}
use jdocs.Http.Execute.{run_char, run_bytes, is_done, parser_execute, looks}
use jdocs.Http.Safety.{magic, run_char-Ends}

-- The outcome of a call that was made with `i` bytes behind it and `buffer` before it.
pub record Parsed (p : HttpParser) (i : ℕ) (buffer : List ℕ) (r : ℕ × HttpParser) : Type 0 where
  pub within : r.0 ≤ i + length buffer
  pub handshake : is_done r.1 ≡ true → (r.1.flags ≡ Flag.complete) × (i < r.0)
  pub kept : magic r.1 ≡ magic p

is_done_iff : (p : HttpParser) → is_done p ≡ true → p.state ≡ ParserState.done
unfolding is_done
is_done_iff p h = ground arith

is_done-of : (p : HttpParser) → is_done p ≡ false → p.state ≢ ParserState.done
unfolding is_done
is_done-of p h = ground arith

not_done : (p : HttpParser) → p.state ≢ ParserState.done → is_done p ≡ false
unfolding is_done
not_done p h = ground arith

abbrev Parses : ℕ → HttpParser → List ℕ → Type 0
Parses i p buffer = (r : ℕ × HttpParser) × (run_bytes i p buffer ≡ some r) × Parsed p i buffer r

char-Parses :
    (i : ℕ) (p : HttpParser) (ch : ℕ) (rest : List ℕ)
    → p.state ≢ ParserState.done
    → let o = run_char looks p ch in
      (f : Flow)
      → o.0 ≡ f
      → (o.1.state ≢ ParserState.done → Parses (i + 1) o.1 rest)
      → Parses i p (ch ∷ rest)
unfolding run_bytes
char-Parses i p ch rest h again e later = absurd ((run_char-Ends p ch).0 e)
char-Parses i p ch rest h advance e later =
    let ends = run_char-Ends p ch in
    let (r, runs, parsed) = later (ends.2 e) in
    (
      r,
      rw (e, run_bytes) runs,
      record {
        within = omega (arith, parsed.within);
        handshake = λ d. ((parsed.handshake d).0, omega (arith, (parsed.handshake d).1));
        kept = parsed.kept ∙ ends.4;
      },
    )
char-Parses i p ch rest h reject e later =
    let ends = run_char-Ends p ch in
    (
      (0, (run_char looks p ch).1),
      rw (e, run_bytes),
      record {
        within = omega arith;
        handshake = λ d. absurd (ends.3 e h (is_done_iff _ d));
        kept = ends.4;
      },
    )
char-Parses i p ch rest h accept e later =
    let ends = run_char-Ends p ch in
    (
      (i + 1, (run_char looks p ch).1),
      rw (e, run_bytes),
      record { within = omega arith; handshake = λ d. ((ends.1 e).1, omega arith); kept = ends.4 },
    )

run_bytes-Parses :
    (i : ℕ) (p : HttpParser) (buffer : List ℕ) → p.state ≢ ParserState.done → Parses i p buffer
unfolding run_bytes
run_bytes-Parses i p [] h = (
  (i, p),
  refl,
  record { within = omega arith; handshake = λ d. absurd (h (is_done_iff p d)); kept = refl },
)
run_bytes-Parses i p (ch ∷ rest) h =
    char-Parses i p ch rest h (run_char looks p ch).0 refl
      (λ k. run_bytes-Parses (i + 1) (run_char looks p ch).1 rest k)

-- On a parser that is not done, `ParserExecute` returns for every buffer: no character is looked at
-- without end, and no more bytes are used than there are. If the parser is done then, all handshake
-- flags are set and at least one byte was used. The magic value behind the client's key is kept.
pub parser_execute-Parsed :
    (p : HttpParser) (buffer : List ℕ)
    → p.state ≢ ParserState.done
    → (r : ℕ × HttpParser) × (parser_execute p buffer ≡ some r) × Parsed p 0 buffer r
unfolding parser_execute
parser_execute-Parsed p buffer h = rw (not_done p h, parser_execute) (run_bytes-Parses 0 p buffer h)

abbrev pub final : Option (ℕ × HttpParser) → Option HttpParser
final none = none
final (some (n, p)) = some p

-- The bytes before a buffer do not matter to the parser's state.
final-index :
    (i j : ℕ) (p : HttpParser) (buffer : List ℕ)
    → final (run_bytes i p buffer) ≡ final (run_bytes j p buffer)
unfolding run_bytes
final-index i j p [] = refl
final-index i j p (ch ∷ rest) =
    ground (arith, final-index (i + 1) (j + 1) (run_char looks p ch).1 rest)

abbrev used : Option (ℕ × HttpParser) → ℕ
used none = 0
used (some (n, p)) = n

abbrev state_of : Option (ℕ × HttpParser) → HttpParser → ParserState
state_of none p = p.state
state_of (some (n, q)) p = q.state

nothing_first :
    (i : ℕ) (p : HttpParser) (ys : List ℕ) (q : HttpParser)
    → run_bytes i p [] ≡ some (i + 0, q)
    → final (run_bytes i p ys) ≡ final (run_bytes 0 q ys)
unfolding run_bytes
nothing_first i p ys q e = ground (arith, final-index i 0 p ys)

-- One character of the first part, at a variable outcome of it.
char-append :
    (i : ℕ) (p : HttpParser) (ch : ℕ) (xs ys : List ℕ) (q : HttpParser) (f : Flow)
    → (run_char looks p ch).0 ≡ f
    → run_bytes i p (ch ∷ xs) ≡ some (i + suc (length xs), q)
    → is_done q ≡ false
    → ((run_char looks p ch).1.state ≢ ParserState.done
        → run_bytes (i + 1) (run_char looks p ch).1 xs ≡ some (i + 1 + length xs, q)
        → final (run_bytes (i + 1) (run_char looks p ch).1 (xs ++ ys)) ≡ final (run_bytes 0 q ys))
    → final (run_bytes i p (ch ∷ (xs ++ ys))) ≡ final (run_bytes 0 q ys)
unfolding run_bytes
char-append i p ch xs ys q again e r d later = absurd ((run_char-Ends p ch).0 e)
char-append i p ch xs ys q advance e r d later =
    let here : i + 1 + length xs ≡ i + suc (length xs) = omega arith in
    rw (e, run_bytes) (later ((run_char-Ends p ch).2 e) (rw here (rw (e, run_bytes) at r)))
char-append i p ch xs ys q reject e r d later =
    let s : some (0, (run_char looks p ch).1) ≡ some (i + suc (length xs), q) =
      (rw (e, run_bytes) at r) in
    absurd (omega (arith, ap (λ o. used o) s))
char-append i p ch xs ys q accept e r d later =
    let s : some (i + 1, (run_char looks p ch).1) ≡ some (i + suc (length xs), q) =
      (rw (e, run_bytes) at r) in
    absurd (is_done-of q d (sym (ap (λ o. state_of o p) s) ∙ ((run_char-Ends p ch).1 e).0))

run_bytes-append :
    (i : ℕ) (p : HttpParser) (xs ys : List ℕ) (q : HttpParser)
    → p.state ≢ ParserState.done
    → run_bytes i p xs ≡ some (i + length xs, q)
    → is_done q ≡ false
    → final (run_bytes i p (xs ++ ys)) ≡ final (run_bytes 0 q ys)
run_bytes-append i p [] ys q h e d = nothing_first i p ys q e
run_bytes-append i p (ch ∷ xs) ys q h e d =
    char-append i p ch xs ys q (run_char looks p ch).0 refl e d
      (λ k r. run_bytes-append (i + 1) (run_char looks p ch).1 xs ys q k r d)

-- A buffer may come in two parts: if the parser has used all of the first and is not done, it gets
-- from the second to the state that the whole buffer leads to.
pub parser_execute-append :
    (p q : HttpParser) (xs ys : List ℕ)
    → p.state ≢ ParserState.done
    → q.state ≢ ParserState.done
    → parser_execute p xs ≡ some (length xs, q)
    → final (parser_execute p (xs ++ ys)) ≡ final (parser_execute q ys)
unfolding parser_execute
parser_execute-append p q xs ys hp hq e =
    rw (not_done p hp, not_done q hq, parser_execute)
      (run_bytes-append 0 p xs ys q hp (from_start e) (not_done q hq))
  where
    from_start :
        parser_execute p xs ≡ some (length xs, q) → run_bytes 0 p xs ≡ some (0 + length xs, q)
    from_start r =
        let here : 0 + length xs ≡ length xs = omega arith in
        rw here (rw (not_done p hp, parser_execute) at r)
