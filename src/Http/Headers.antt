-- ===== src/Http/Headers.antt =====
-- The states of `HttpParser::ParserExecute` in src/protocol/http/http_parser.cc that read the headers.
use jdocs.Base.{
  ℕ, ◌+◌, ◌-◌, ◌&&◌, ◌||◌, not, List, [], ◌∷◌, ◌++◌, get_or, set, length, if◌then◌else◌, ltb, leb,
  ◌==◌,
}
use jdocs.Http.ErrorCode
use jdocs.Http.Flag
use jdocs.Http.State.{
  ParserState, HeaderState, HttpParser, Outcome, advance, again, accept, fail, raise, lower,
}
use jdocs.Http.Tables.{
  header_element_size, tokens, websocket_key_valid, http_origin, http_host, http_upgrade,
  http_connection, http_websocket, http_sec_websocket, http_sec_websocket_key,
  http_sec_websocket_version, http_sec_websocket_version13, http_sec_websocket_protocol,
  http_sec_websocket_extensions,
}

abbrev to_header : HttpParser → HeaderState → HttpParser
to_header p h = record p { header_state = h }

-- A header name that is compared and has a flag: past its end the flag is taken back.
unfoldable pub match_name : HttpParser → ℕ → List ℕ → ℕ → HttpParser
match_name p lc name flag =
    if ltb (length name - 1) p.index
    then lower (to_header p HeaderState.normal) flag
    else if not (lc == get_or name p.index 0)
    then to_header p HeaderState.normal
    else if p.index == length name - 1
    then raise p flag
    else p

-- A header name that is compared and has no flag.
unfoldable pub match_plain_name : HttpParser → ℕ → List ℕ → HttpParser
match_plain_name p lc name =
    if ltb (length name - 1) p.index
    then to_header p HeaderState.normal
    else if not (lc == get_or name p.index 0)
    then to_header p HeaderState.normal
    else p

-- `case kHeaderSecWebsocket`.
unfoldable pub match_sec_websocket : HttpParser → ℕ → HttpParser
match_sec_websocket p lc =
    if ltb (length http_sec_websocket - 1) p.index
    then to_header p (
        if lc == b'k'
        then HeaderState.sec_websocket_key
        else if lc == b'v'
        then HeaderState.sec_websocket_version
        else if lc == b'p'
        then HeaderState.sec_websocket_protocol
        else if lc == b'e'
        then HeaderState.sec_websocket_extensions
        else HeaderState.normal)
    else if not (lc == get_or http_sec_websocket p.index 0)
    then to_header p HeaderState.normal
    else p

-- The first character of a header name.
unfoldable pub first_of_name : HttpParser → ℕ → HttpParser
first_of_name p lc =
    if lc == b'o'
    then to_header p HeaderState.origin
    else if lc == b'h'
    then to_header p HeaderState.host
    else if lc == b'c'
    then to_header p HeaderState.connection
    else if lc == b'u'
    then to_header p HeaderState.upgrade
    else if lc == b's'
    then to_header p HeaderState.sec_websocket
    else p

-- A later character of a header name.
unfoldable pub rest_of_name : HeaderState → HttpParser → ℕ → HttpParser
unfolding match_name match_plain_name match_sec_websocket
rest_of_name HeaderState.origin p lc = match_plain_name p lc http_origin
rest_of_name HeaderState.host p lc = match_name p lc http_host Flag.host
rest_of_name HeaderState.connection p lc = match_name p lc http_connection Flag.connection
rest_of_name HeaderState.upgrade p lc = match_name p lc http_upgrade Flag.upgrade
rest_of_name HeaderState.sec_websocket p lc = match_sec_websocket p lc
rest_of_name HeaderState.sec_websocket_key p lc =
    match_name p lc http_sec_websocket_key Flag.websocket_key
rest_of_name HeaderState.sec_websocket_version p lc =
    match_name p lc http_sec_websocket_version Flag.websocket_version
rest_of_name HeaderState.sec_websocket_protocol p lc =
    match_plain_name p lc http_sec_websocket_protocol
rest_of_name HeaderState.sec_websocket_extensions p lc =
    match_plain_name p lc http_sec_websocket_extensions
rest_of_name _ p lc = p

unfoldable pub on_header_field : HttpParser → ℕ → Outcome
unfolding first_of_name rest_of_name
on_header_field p ch =
    let lc = tokens ch in
    let q : HttpParser =
      if p.index == 0 then first_of_name p lc else rest_of_name p.header_state p lc in
    if leb header_element_size p.index
    then fail p ErrorCode.field_out_of_range
    else if ch == b':' && not (p.index == 0)
    then (advance, record p { state = ParserState.field_value; index = 0 })
    else if lc == b' ' || lc == 0
    then fail p ErrorCode.invalid_header_field
    else (advance, record q { index = q.index + 1 })

abbrev step_index : HttpParser → Outcome
step_index p = (advance, record p { index = p.index + 1 })

-- A comma-separated value: at the first character of an item the comparison with a word may begin.
unfoldable pub value_list : HttpParser → ℕ → ℕ → HeaderState → Outcome
value_list p ch first word =
    if ch == b','
    then (if p.index == 0
        then fail p ErrorCode.protocol_error
        else (advance, record p { index = 0 }))
    else step_index (if p.index == 0 && tokens ch == first then to_header p word else p)

-- The comparison of an item with a word; `other` is where a mismatch goes back to.
unfoldable pub value_word : HttpParser → ℕ → List ℕ → HeaderState → ℕ → HttpParser
value_word p ch word other flag =
    if ltb (length word - 1) p.index
    then (if not (ch == b' ') && not (ch == 9) && not (ch == b',')
        then lower p flag
        else if ch == b','
        then to_header p HeaderState.normal
        else p)
    else if not (tokens ch == get_or word p.index 0)
    then to_header p other
    else if p.index == length word - 1
    then raise p flag
    else p

unfoldable pub value_key : HttpParser → ℕ → Outcome
value_key p ch =
    if leb 24 p.index
    then (if not (ch == b' ') && not (ch == 9)
        then fail p ErrorCode.invalid_field_value
        else step_index p)
    else if websocket_key_valid ch
    then step_index (record p { websocket_key_bytes = set p.websocket_key_bytes p.index ch })
    else fail p ErrorCode.invalid_field_value

unfoldable pub value_char : HeaderState → HttpParser → ℕ → Outcome
unfolding value_list value_word value_key
value_char HeaderState.host p ch = step_index (record p { host_value = p.host_value ++ (ch ∷ []) })
value_char HeaderState.origin p ch =
    step_index (record p { origin_value = p.origin_value ++ (ch ∷ []) })
value_char HeaderState.connection p ch = value_list p ch b'u' HeaderState.connection_upgrade
value_char HeaderState.connection_upgrade p ch =
    step_index (value_word p ch http_upgrade HeaderState.connection Flag.connection_upgrade)
value_char HeaderState.upgrade p ch = value_list p ch b'w' HeaderState.upgrade_websocket
value_char HeaderState.upgrade_websocket p ch =
    step_index (value_word p ch http_websocket HeaderState.upgrade Flag.upgrade_websocket)
value_char HeaderState.sec_websocket_key p ch = value_key p ch
value_char HeaderState.sec_websocket_version p ch =
    value_list p ch b'1' HeaderState.sec_websocket_version13
value_char HeaderState.sec_websocket_version13 p ch = step_index (
    value_word p ch http_sec_websocket_version13 HeaderState.sec_websocket_version
      Flag.websocket_version13)
value_char _ p ch = step_index p

unfoldable pub on_field_value : HttpParser → ℕ → Outcome
unfolding value_char
on_field_value p ch =
    let q : HttpParser = record p { count = p.count + 1 } in
    if leb header_element_size p.count
    then fail q ErrorCode.field_out_of_range
    else if ch == 13
    then (if q.index == 0 then fail q ErrorCode.invalid_field_value else (
      advance,
      record q {
        state = ParserState.header_line_almost_done;
        header_state = HeaderState.normal;
        index = 0;
      },
    ))
    else if (ch == b' ' || ch == 9) && q.index == 0
    then (advance, q)
    else value_char q.header_state q ch

unfoldable pub on_header_line_almost_done : HttpParser → ℕ → Outcome
on_header_line_almost_done p ch =
    if ch == 10
    then (advance, record p { count = 0; state = ParserState.header_line_done })
    else fail p ErrorCode.protocol_error

unfoldable pub on_header_line_done : HttpParser → ℕ → Outcome
on_header_line_done p ch =
    if ch == b' '
    then fail p ErrorCode.protocol_error
    else if ch == 13
    then (advance, record p { state = ParserState.finished })
    else (again, record p { state = ParserState.header_field })

unfoldable pub on_finished : HttpParser → ℕ → Outcome
on_finished p ch =
    if not (ch == 10)
    then fail p ErrorCode.protocol_error
    else if not (p.flags == Flag.complete)
    then fail p ErrorCode.not_found_required_field
    else (accept, record p { state = ParserState.done })
