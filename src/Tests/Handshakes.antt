-- ===== src/Tests/Handshakes.antt =====
-- The HTTP parser of src/protocol/http/http_parser.cc.
use Prim.Native.Char.{code}
use Prim.Native.String.{String}
use jdocs.Base.{ℕ, ◌≡◌, ◌≢◌, refl, List, [], ◌∷◌, ◌++◌, Option, none, some, length, replicate}
use jdocs.Http.State.{ParserState, HeaderState, HttpParser}
use jdocs.Http.Tables.{tokens, websocket_key_valid}
use jdocs.Http.RequestLine.{
  on_start, on_method, on_before_uri, on_uri_location, on_after_uri, on_version, on_after_version,
  on_uri_query_key, on_uri_query_value,
}
use jdocs.Http.Headers.{
  on_header_field, on_field_value, on_header_line_almost_done, on_header_line_done, on_finished,
}
use jdocs.Http.Execute.{parser_execute}
use jdocs.Http.Handshake.{Parsed, parser_execute-Parsed, parser_execute-append, final}

-- The bytes of a text of ASCII characters.
abbrev bytes : String → List ℕ
bytes String.[] = []
bytes (String.◌∷◌ c s) = code c ∷ bytes s

abbrev line : String → List ℕ
line s = bytes s ++ (13 ∷ 10 ∷ [])

fresh : HttpParser
fresh = record {
  state = ParserState.start;
  header_state = HeaderState.normal;
  location = [];
  query_args = [];
  key_cache = [];
  value_cache = [];
  origin_value = [];
  host_value = [];
  websocket_key_bytes = replicate 24 0 ++ bytes "258EAFA5-E914-47DA-95CA-C5AB0DC85B11";
  flags = 0;
  error_code = 0;
  index = 0;
  count = 0;
}

abbrev request_line : List ℕ
request_line = line "GET /chat?user=7 HTTP/1.1"

abbrev headers : List ℕ
headers =
    line "Host: jdocs"
    ++ (line "Connection: keep-alive, Upgrade"
        ++ (line "Upgrade: websocket"
            ++ (line "Sec-WebSocket-Key: dGhlIHNhbXBsZSBub25jZQ=="
                ++ (line "Sec-WebSocket-Version: 13" ++ (13 ∷ 10 ∷ [])))))

-- The parser's outcome on a buffer, with the fields that the handler reads.
abbrev seen : Option (ℕ × HttpParser) → Option (ℕ × ParserState × ℕ × ℕ × List ℕ)
seen none = none
seen (some (n, p)) = some (n, p.state, p.flags, p.error_code, p.location)

handshake_done :
    seen (parser_execute fresh (request_line ++ headers))
    ≡ some (length (request_line ++ headers), ParserState.done, 255, 0, bytes "/chat")
unfolding parser_execute fresh tokens on_start on_method on_before_uri on_uri_location on_after_uri
    on_version on_after_version on_uri_query_key on_uri_query_value on_header_field on_field_value
    on_header_line_almost_done on_header_line_done on_finished websocket_key_valid
handshake_done = refl

-- The parser does not stop at a protocol name that is not `HTTP`: it is done, with an error code.
wrong_protocol_done :
    seen (parser_execute fresh (line "GET / XTTP/1.1" ++ headers))
    ≡ some (length (line "GET / XTTP/1.1" ++ headers), ParserState.done, 255, 6, bytes "/")
unfolding parser_execute fresh tokens on_start on_method on_before_uri on_uri_location on_after_uri
    on_version on_after_version on_uri_query_key on_uri_query_value on_header_field on_field_value
    on_header_line_almost_done on_header_line_done on_finished websocket_key_valid
wrong_protocol_done = refl

fresh-not_done : fresh.state ≢ ParserState.done
unfolding fresh
fresh-not_done e = cc

parser_execute-Parsed_example :
    (r : ℕ × HttpParser) × (parser_execute fresh (request_line ++ headers) ≡ some r)
    × Parsed fresh 0 (request_line ++ headers) r
parser_execute-Parsed_example = parser_execute-Parsed fresh (request_line ++ headers) fresh-not_done

begun : HttpParser
begun = record fresh { state = ParserState.method }

begun-not_done : begun.state ≢ ParserState.done
unfolding begun
begun-not_done e = cc

begins : parser_execute fresh (b'G' ∷ []) ≡ some (1, begun)
unfolding parser_execute fresh begun on_start
begins = refl

parser_execute-append_example :
    final (parser_execute fresh ((b'G' ∷ []) ++ (b'E' ∷ b'T' ∷ [])))
    ≡ final (parser_execute begun (b'E' ∷ b'T' ∷ []))
parser_execute-append_example =
    parser_execute-append fresh begun (b'G' ∷ []) (b'E' ∷ b'T' ∷ []) fresh-not_done begun-not_done
      begins
