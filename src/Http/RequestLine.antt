-- ===== src/Http/RequestLine.antt =====
-- The states of `HttpParser::ParserExecute` in src/protocol/http/http_parser.cc up to the end of the
-- request line. `std::move` of a string leaves it empty.
use jdocs.Base.{
  ℕ, ◌+◌, ◌*◌, ◌||◌, not, List, [], ◌∷◌, ◌++◌, get_or, if◌then◌else◌, ltb, ◌==◌, length,
}
use jdocs.Http.ErrorCode
use jdocs.Http.State.{
  ParserState, HttpParser, Outcome, advance, again, fail, or_back, add_query_arg,
}
use jdocs.Http.Tables.{request_uri_size, uri_encode_valid, uri_hex_map, http_method, http_version}

abbrev push_back : List ℕ → ℕ → List ℕ
push_back text c = text ++ (c ∷ [])

unfoldable pub on_start : HttpParser → ℕ → Outcome
on_start p ch =
    if ch == b'G'
    then (advance, record p { state = ParserState.method })
    else fail p ErrorCode.invalid_method

unfoldable pub on_method : HttpParser → ℕ → Outcome
on_method p ch =
    let q : HttpParser = record p { index = p.index + 1 } in
    if not (ch == get_or http_method q.index 0)
    then fail q ErrorCode.invalid_method
    else if q.index == 2
    then (advance, record q { state = ParserState.before_uri; index = 0 })
    else (advance, q)

unfoldable pub on_before_uri : HttpParser → ℕ → Outcome
on_before_uri p ch =
    let q : HttpParser = record p { index = p.index + 1 } in
    if ch == b' '
    then (if ltb 1 q.index then fail q ErrorCode.protocol_error else (advance, q))
    else if not (ch == b'/')
    then fail p ErrorCode.protocol_error
    else if not (p.index == 1)
    then fail p ErrorCode.protocol_error
    else (again, record p { state = ParserState.uri_location; index = 0 })

unfoldable pub on_uri_location : HttpParser → ℕ → Outcome
on_uri_location p ch =
    let q : HttpParser = record p { index = p.index + 1 } in
    if ltb request_uri_size q.index || ch == b'#'
    then fail q ErrorCode.invalid_uri
    else if ch == b' '
    then (again, record q { state = ParserState.after_uri; index = 0 })
    else if ch == b'?'
    then (advance, record q { state = ParserState.uri_query_key })
    else if ch == b'%'
    then (advance, record q { state = ParserState.uri_location_decode; count = 0 })
    else (advance, record q { location = push_back q.location ch })

-- The decoders: the first digit is pushed, shifted by four, and the second goes into its low bits.
unfoldable pub on_uri_location_decode : HttpParser → ℕ → Outcome
on_uri_location_decode p ch =
    let q : HttpParser = record p { index = p.index + 1 } in
    if ltb request_uri_size q.index || not (uri_encode_valid ch)
    then fail q ErrorCode.invalid_uri
    else if q.count == 0
    then (
      advance,
      record q { count = q.count + 1; location = push_back q.location (uri_hex_map ch * 16) },
    )
    else (
      advance,
      record q { state = ParserState.uri_location; location = or_back q.location (uri_hex_map ch) },
    )

unfoldable pub on_uri_query_key : HttpParser → ℕ → Outcome
on_uri_query_key p ch =
    let q : HttpParser = record p { index = p.index + 1 } in
    if ltb request_uri_size q.index || ch == b' ' || ch == b'#'
    then fail q ErrorCode.invalid_uri
    else if ch == b'='
    then (if length q.key_cache == 0
        then fail q ErrorCode.protocol_error
        else (advance, record q { state = ParserState.uri_query_value }))
    else if ch == b'%'
    then (advance, record q { state = ParserState.uri_query_key_decode; count = 0 })
    else if ch == b'+'
    then (advance, record q { key_cache = push_back q.key_cache b' ' })
    else (advance, record q { key_cache = push_back q.key_cache ch })

unfoldable pub on_uri_query_key_decode : HttpParser → ℕ → Outcome
on_uri_query_key_decode p ch =
    let q : HttpParser = record p { index = p.index + 1 } in
    if ltb request_uri_size q.index || not (uri_encode_valid ch)
    then fail q ErrorCode.invalid_uri
    else if q.count == 0
    then (
      advance,
      record q { count = q.count + 1; key_cache = push_back q.key_cache (uri_hex_map ch * 16) },
    )
    else (
      advance,
      record q {
        state = ParserState.uri_query_key;
        key_cache = or_back q.key_cache (uri_hex_map ch);
      },
    )

unfoldable pub on_uri_query_value : HttpParser → ℕ → Outcome
on_uri_query_value p ch =
    let q : HttpParser = record p { index = p.index + 1 } in
    if ltb request_uri_size q.index || ch == b'#'
    then fail q ErrorCode.invalid_uri
    else if ch == b' ' || ch == b'&'
    then (if length q.value_cache == 0
        then fail q ErrorCode.protocol_error
        else let stored : HttpParser = record q {
          query_args = add_query_arg q.query_args q.key_cache q.value_cache;
          key_cache = [];
          value_cache = [];
        } in
          if ch == b' '
          then (again, record stored { state = ParserState.after_uri; index = 0 })
          else (advance, record stored { state = ParserState.uri_query_key }))
    else if ch == b'+'
    then (advance, record q { value_cache = push_back q.value_cache b' ' })
    else if ch == b'%'
    then (advance, record q { state = ParserState.uri_query_value_decode; count = 0 })
    else (advance, record q { value_cache = push_back q.value_cache ch })

unfoldable pub on_uri_query_value_decode : HttpParser → ℕ → Outcome
on_uri_query_value_decode p ch =
    let q : HttpParser = record p { index = p.index + 1 } in
    if ltb request_uri_size q.index || not (uri_encode_valid ch)
    then fail q ErrorCode.invalid_uri
    else if q.count == 0
    then (
      advance,
      record q { count = q.count + 1; value_cache = push_back q.value_cache (uri_hex_map ch * 16) },
    )
    else (
      advance,
      record q {
        state = ParserState.uri_query_value;
        value_cache = or_back q.value_cache (uri_hex_map ch);
      },
    )

-- A first character other than `H` sets the error code, and the parser goes on, as in the source.
unfoldable pub on_after_uri : HttpParser → ℕ → Outcome
on_after_uri p ch =
    let spaced : HttpParser = record p { index = p.index + 1 } in
    let q : HttpParser =
      if not (ch == b'H') then record p { error_code = ErrorCode.protocol_error } else p in
    if ch == b' '
    then (if ltb 1 spaced.index then fail spaced ErrorCode.protocol_error else (advance, spaced))
    else if not (q.index == 1)
    then fail q ErrorCode.protocol_error
    else (advance, record q { state = ParserState.version; index = 0 })

unfoldable pub on_version : HttpParser → ℕ → Outcome
on_version p ch =
    let q : HttpParser = record p { index = p.index + 1 } in
    if not (ch == get_or http_version q.index 0)
    then fail q ErrorCode.protocol_error
    else if q.index == 7
    then (advance, record q { state = ParserState.after_version; index = 0 })
    else (advance, q)

unfoldable pub on_after_version : HttpParser → ℕ → Outcome
on_after_version p ch =
    if ch == 13
    then (advance, record p { state = ParserState.header_line_almost_done })
    else fail p ErrorCode.protocol_error
