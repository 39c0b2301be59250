-- ===== src/Http/State.antt =====
-- The state of the parser in src/protocol/http/http_parser.h, and the ways in which a character ends.
use jdocs.Base.{ℕ, ◌-◌, Bool, List, [], ◌∷◌, ◌++◌, bit_and, bit_or, if◌then◌else◌, ◌==◌}

pub data ParserState : Type 0 where
  start method before_uri uri_location uri_location_decode : ParserState
  uri_query_key uri_query_key_decode uri_query_value uri_query_value_decode : ParserState
  after_uri version after_version header_field field_value : ParserState
  header_line_almost_done header_line_done finished done : ParserState

pub data HeaderState : Type 0 where
  normal origin host upgrade connection : HeaderState
  sec_websocket sec_websocket_key sec_websocket_version : HeaderState
  sec_websocket_protocol sec_websocket_extensions : HeaderState
  connection_upgrade upgrade_websocket sec_websocket_version13 : HeaderState

pub record HttpParser : Type 0 where
  pub state : ParserState
  pub header_state : HeaderState
  pub location : List ℕ
  pub query_args : List (List ℕ × List (List ℕ))
  pub key_cache : List ℕ
  pub value_cache : List ℕ
  pub origin_value : List ℕ
  pub host_value : List ℕ
  -- The 62 bytes of `websocket_key_`.
  pub websocket_key_bytes : List ℕ
  pub flags : ℕ
  pub error_code : ℕ
  pub index : ℕ
  pub count : ℕ

-- How the `switch` ends for a character: `break`, `goto reexecute`, `return 0`, `return i + 1`.
pub data Flow : Type 0 where
  advance again reject accept : Flow

abbrev pub Outcome : Type 0
Outcome = Flow × HttpParser

abbrev pub fail : HttpParser → ℕ → Outcome
fail p code = (reject, record p { error_code = code })

-- `flags_ |= flag` and `flags_ &= ~flag`, on a byte.
abbrev pub raise : HttpParser → ℕ → HttpParser
raise p flag = record p { flags = bit_or p.flags flag }

abbrev pub lower : HttpParser → ℕ → HttpParser
lower p flag = record p { flags = bit_and p.flags (255 - flag) }

-- `text.back() |= digit`, on a byte.
unfoldable pub or_back : List ℕ → ℕ → List ℕ
or_back [] digit = []
or_back (c ∷ []) digit = bit_or c digit ∷ []
or_back (c ∷ d ∷ rest) digit = c ∷ or_back (d ∷ rest) digit

unfoldable pub same_text : List ℕ → List ℕ → Bool
same_text [] [] = Bool.true
same_text [] (_ ∷ _) = Bool.false
same_text (_ ∷ _) [] = Bool.false
same_text (a ∷ as') (b ∷ bs) = if a == b then same_text as' bs else Bool.false

-- The value goes behind the others of its key, or the key is new.
unfoldable pub add_query_arg :
    List (List ℕ × List (List ℕ)) → List ℕ → List ℕ → List (List ℕ × List (List ℕ))
add_query_arg [] key value = (key, value ∷ []) ∷ []
add_query_arg ((k, values) ∷ rest) key value =
    if same_text k key
    then (k, values ++ (value ∷ [])) ∷ rest
    else (k, values) ∷ add_query_arg rest key value
