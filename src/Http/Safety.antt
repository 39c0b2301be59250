-- ===== src/Http/Safety.antt =====
-- What every character keeps, in src/protocol/http/http_parser.cc.
use jdocs.Base.{ℕ, zero, suc, ◌+◌, ◌<◌, ◌≡◌, ◌≢◌, refl, ◌⊎◌, List, [], ◌∷◌, arith, drop, set}
use jdocs.Http.Flag
use jdocs.Http.State.{ParserState, HeaderState, HttpParser, Outcome, advance, again, reject, accept}
use jdocs.Http.RequestLine.{
  on_start, on_method, on_before_uri, on_uri_location, on_uri_location_decode, on_uri_query_key,
  on_uri_query_key_decode, on_uri_query_value, on_uri_query_value_decode, on_after_uri, on_version,
  on_after_version,
}
use jdocs.Http.Headers.{
  on_header_field, on_field_value, on_header_line_almost_done, on_header_line_done, on_finished,
  first_of_name, rest_of_name, value_char, value_key,
}
use jdocs.Http.Tables.{tokens}
use jdocs.Http.Execute.{dispatch, run_char, looks}

-- The part of `websocket_key_` behind the 24 bytes of the client's key: the magic value.
unfoldable pub behind_key : List ℕ → List ℕ
behind_key bytes = drop 24 bytes

abbrev pub magic : HttpParser → List ℕ
magic p = behind_key p.websocket_key_bytes

-- How a character may end in a state: it is accepted only with all flags there, and it is looked at
-- again only where that look is the last.
pub record Ends (p : HttpParser) (ch : ℕ) (o : Outcome) : Type 0 where
  pub accepted : o.0 ≡ accept → (o.1.state ≡ ParserState.done) × (o.1.flags ≡ Flag.complete)
  pub going_on : o.0 ≡ advance → o.1.state ≢ ParserState.done
  pub rejected : o.0 ≡ reject → o.1.state ≡ p.state
  pub revisits :
      o.0 ≡ again
      → ((o.1.state ≡ ParserState.uri_location) × (ch ≡ b'/'))
        ⊎ (o.1.state ≡ ParserState.after_uri)
        ⊎ (o.1.state ≡ ParserState.header_field)
  pub kept : magic o.1 ≡ magic p

drop-set : (n : ℕ) (xs : List ℕ) (i v : ℕ) → i < n → drop n (set xs i v) ≡ drop n xs
drop-set zero xs i v h = absurd (omega arith)
drop-set (suc n) [] i v h = refl
drop-set (suc n) (x ∷ xs) zero v h = refl
drop-set (suc n) (x ∷ xs) (suc i) v h = drop-set n xs i v (omega arith)

behind_key-set : (xs : List ℕ) (i v : ℕ) → i < 24 → behind_key (set xs i v) ≡ behind_key xs
unfolding behind_key
behind_key-set xs i v h = drop-set 24 xs i v h

-- A character inside a header that does not end there.
record IsQuiet (p : HttpParser) (o : Outcome) : Type 0 where
  calm : (o.0 ≡ advance) ⊎ (o.0 ≡ reject)
  same_state : o.1.state ≡ p.state
  same_magic : magic o.1 ≡ magic p

value_key-IsQuiet : (p : HttpParser) (ch : ℕ) → IsQuiet p (value_key p ch)
unfolding value_key
value_key-IsQuiet p ch = ground (arith, behind_key-set p.websocket_key_bytes p.index ch)

value_char-IsQuiet : (h : HeaderState) (p : HttpParser) (ch : ℕ) → IsQuiet p (value_char h p ch)
unfolding value_char
value_char-IsQuiet HeaderState.sec_websocket_key p ch = value_key-IsQuiet p ch
value_char-IsQuiet _ p ch = ground arith

rest_of_name-keeps :
    (h : HeaderState) (p : HttpParser) (lc : ℕ)
    → ((rest_of_name h p lc).state ≡ p.state) × (magic (rest_of_name h p lc) ≡ magic p)
unfolding rest_of_name
rest_of_name-keeps HeaderState.normal p lc = (refl, refl)
rest_of_name-keeps _ p lc = ground arith

first_of_name-keeps :
    (p : HttpParser) (lc : ℕ)
    → ((first_of_name p lc).state ≡ p.state) × (magic (first_of_name p lc) ≡ magic p)
unfolding first_of_name
first_of_name-keeps p lc = ground arith

field_value-Ends :
    (p : HttpParser) (ch : ℕ) → p.state ≡ ParserState.field_value → Ends p ch (on_field_value p ch)
unfolding on_field_value
field_value-Ends p ch e =
    ground (arith, value_char-IsQuiet p.header_state (record p { count = p.count + 1 }) ch)

header_field-Ends :
    (p : HttpParser) (ch : ℕ)
    → p.state ≡ ParserState.header_field
    → Ends p ch (on_header_field p ch)
unfolding on_header_field
header_field-Ends p ch e =
    ground
      (arith, rest_of_name-keeps p.header_state p (tokens ch), first_of_name-keeps p (tokens ch))

dispatch-Ends :
    (s : ParserState) (p : HttpParser) (ch : ℕ) → p.state ≡ s → Ends p ch (dispatch s p ch)
unfolding dispatch on_start on_method on_before_uri on_uri_location on_uri_location_decode
    on_uri_query_key on_uri_query_key_decode on_uri_query_value on_uri_query_value_decode
    on_after_uri on_version on_after_version on_header_line_almost_done on_header_line_done
    on_finished
dispatch-Ends ParserState.field_value p ch e = field_value-Ends p ch e
dispatch-Ends ParserState.header_field p ch e = header_field-Ends p ch e
dispatch-Ends _ p ch e = ground arith

-- The second look is the last.
last_look :
    (s : ParserState) (p : HttpParser) (ch : ℕ)
    → ((s ≡ ParserState.uri_location) × (ch ≡ b'/'))
      ⊎ (s ≡ ParserState.after_uri)
      ⊎ (s ≡ ParserState.header_field)
    → (dispatch s p ch).0 ≢ again
unfolding dispatch on_uri_location on_after_uri on_header_field
last_look ParserState.uri_location p ch e = ground arith
last_look ParserState.after_uri p ch e = ground arith
last_look ParserState.header_field p ch e = ground arith
last_look _ p ch e = ground arith

-- A character is looked at twice at most, and ends as its last look says.
pub run_char-Ends :
    (p : HttpParser) (ch : ℕ)
    → ((run_char looks p ch).0 ≢ again)
      × ((run_char looks p ch).0 ≡ accept
          → ((run_char looks p ch).1.state ≡ ParserState.done)
            × ((run_char looks p ch).1.flags ≡ Flag.complete))
      × ((run_char looks p ch).0 ≡ advance → (run_char looks p ch).1.state ≢ ParserState.done)
      × ((run_char looks p ch).0 ≡ reject
          → p.state ≢ ParserState.done
          → (run_char looks p ch).1.state ≢ ParserState.done)
      × (magic (run_char looks p ch).1 ≡ magic p)
unfolding run_char
run_char-Ends p ch =
    let first = dispatch-Ends p.state p ch refl in
    let q = (dispatch p.state p ch).1 in
    ground (arith, first, dispatch-Ends q.state q ch refl, last_look q.state q ch)
