-- ===== src/Http/Execute.antt =====
-- `ParserExecute` and `Reset` of src/protocol/http/http_parser.cc over the handlers of the states.
use jdocs.Base.{ℕ, zero, suc, ◌+◌, Bool, true, false, List, [], ◌∷◌, Option, none, some}
use jdocs.Http.State.{ParserState, HeaderState, HttpParser, Outcome, advance, again, reject, accept}
use jdocs.Http.RequestLine.{
  on_start, on_method, on_before_uri, on_uri_location, on_uri_location_decode, on_uri_query_key,
  on_uri_query_key_decode, on_uri_query_value, on_uri_query_value_decode, on_after_uri, on_version,
  on_after_version,
}
use jdocs.Http.Headers.{
  on_header_field, on_field_value, on_header_line_almost_done, on_header_line_done, on_finished,
}

-- The `switch` on the state.
unfoldable pub dispatch : ParserState → HttpParser → ℕ → Outcome
dispatch ParserState.start p ch = on_start p ch
dispatch ParserState.method p ch = on_method p ch
dispatch ParserState.before_uri p ch = on_before_uri p ch
dispatch ParserState.uri_location p ch = on_uri_location p ch
dispatch ParserState.uri_location_decode p ch = on_uri_location_decode p ch
dispatch ParserState.uri_query_key p ch = on_uri_query_key p ch
dispatch ParserState.uri_query_key_decode p ch = on_uri_query_key_decode p ch
dispatch ParserState.uri_query_value p ch = on_uri_query_value p ch
dispatch ParserState.uri_query_value_decode p ch = on_uri_query_value_decode p ch
dispatch ParserState.after_uri p ch = on_after_uri p ch
dispatch ParserState.version p ch = on_version p ch
dispatch ParserState.after_version p ch = on_after_version p ch
dispatch ParserState.header_field p ch = on_header_field p ch
dispatch ParserState.field_value p ch = on_field_value p ch
dispatch ParserState.header_line_almost_done p ch = on_header_line_almost_done p ch
dispatch ParserState.header_line_done p ch = on_header_line_done p ch
dispatch ParserState.finished p ch = on_finished p ch
dispatch ParserState.done p ch = (reject, p)

-- One character, with as many `goto reexecute` as there is fuel. Out of fuel the flow is `again`.
unfoldable pub run_char : ℕ → HttpParser → ℕ → Outcome
run_char zero p ch = (again, p)
run_char (suc fuel) p ch =
    let (flow, q) = dispatch p.state p ch in
    elim flow [ again ↦ run_char fuel q ch | other ↦ (other, q) ]

-- A character is looked at twice at most.
abbrev pub looks : ℕ
looks = 2

-- What `ParserExecute` returns for the bytes from `i` on; `none` if a character used up its looks.
unfoldable pub run_bytes : ℕ → HttpParser → List ℕ → Option (ℕ × HttpParser)
unfolding run_char dispatch
run_bytes i p [] = some (i, p)
run_bytes i p (ch ∷ rest) =
    let (flow, q) = run_char looks p ch in
    elim flow [
      | advance ↦ run_bytes (i + 1) q rest
      | reject ↦ some (0, q)
      | accept ↦ some (i + 1, q)
      | again ↦ none
    ]

unfoldable pub is_done : HttpParser → Bool
is_done p = elim p.state [ ParserState.done ↦ true | _ ↦ false ]

unfoldable pub parser_execute : HttpParser → List ℕ → Option (ℕ × HttpParser)
unfolding run_bytes is_done
parser_execute p buffer = elim (is_done p) [ true ↦ some (0, p) | false ↦ run_bytes 0 p buffer ]

unfoldable pub reset : HttpParser → HttpParser
reset p = record p {
  state = ParserState.start;
  header_state = HeaderState.normal;
  location = [];
  query_args = [];
  key_cache = [];
  value_cache = [];
  origin_value = [];
  host_value = [];
  error_code = 0;
  index = 0;
  count = 0;
  flags = 0;
}
