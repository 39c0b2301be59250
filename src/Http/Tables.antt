-- ===== src/Http/Tables.antt =====
-- The character tables and constants of src/protocol/http/http_parser.h. A character is its byte; the
-- tables hold 0 from 128 on.
use jdocs.Base.{ℕ, ◌+◌, ◌-◌, Bool, ◌&&◌, ◌||◌, List, [], ◌∷◌, leb, ◌==◌, if◌then◌else◌}

abbrev pub header_element_size : ℕ
header_element_size = 512

abbrev pub request_uri_size : ℕ
request_uri_size = 1024

abbrev between : ℕ → ℕ → ℕ → Bool
between lo hi c = leb lo c && leb c hi

-- The punctuation of `tokens` that stands for itself.
abbrev token_marks : ℕ → Bool
token_marks c =
    between 32 33 c
    || between 35 39 c
    || between 42 43 c
    || between 45 46 c
    || between 94 96 c
    || c == 124
    || c == 126

-- `tokens`: a lower-case letter for a letter, itself for a digit and for the marks, 0 otherwise.
unfoldable pub tokens : ℕ → ℕ
tokens c =
    if between b'A' b'Z' c
    then c + 32
    else if between b'a' b'z' c || between b'0' b'9' c || token_marks c
    then c
    else 0

unfoldable pub websocket_key_valid : ℕ → Bool
websocket_key_valid c = c == 43 || between 47 57 c || c == 61 || between 65 90 c || between 97 122 c

unfoldable pub uri_encode_valid : ℕ → Bool
uri_encode_valid c = between b'0' b'9' c || between b'A' b'F' c || between b'a' b'f' c

-- `uri_hex_map`: the value of a hexadecimal digit, 0 for any other byte.
unfoldable pub uri_hex_map : ℕ → ℕ
uri_hex_map c =
    if between b'0' b'9' c
    then c - 48
    else if between b'A' b'F' c
    then c - 55
    else if between b'a' b'f' c
    then c - 87
    else 0

abbrev pub http_method : List ℕ
http_method = b'G' ∷ b'E' ∷ b'T' ∷ []

abbrev pub http_version : List ℕ
http_version = b'H' ∷ b'T' ∷ b'T' ∷ b'P' ∷ b'/' ∷ b'1' ∷ b'.' ∷ b'1' ∷ []

abbrev pub http_origin : List ℕ
http_origin = b'o' ∷ b'r' ∷ b'i' ∷ b'g' ∷ b'i' ∷ b'n' ∷ []

abbrev pub http_host : List ℕ
http_host = b'h' ∷ b'o' ∷ b's' ∷ b't' ∷ []

abbrev pub http_upgrade : List ℕ
http_upgrade = b'u' ∷ b'p' ∷ b'g' ∷ b'r' ∷ b'a' ∷ b'd' ∷ b'e' ∷ []

abbrev pub http_connection : List ℕ
http_connection = b'c' ∷ b'o' ∷ b'n' ∷ b'n' ∷ b'e' ∷ b'c' ∷ b't' ∷ b'i' ∷ b'o' ∷ b'n' ∷ []

abbrev pub http_websocket : List ℕ
http_websocket = b'w' ∷ b'e' ∷ b'b' ∷ b's' ∷ b'o' ∷ b'c' ∷ b'k' ∷ b'e' ∷ b't' ∷ []

abbrev pub http_sec_websocket : List ℕ
http_sec_websocket =
    b's' ∷ b'e' ∷ b'c' ∷ b'-' ∷ b'w' ∷ b'e' ∷ b'b' ∷ b's' ∷ b'o' ∷ b'c' ∷ b'k' ∷ b'e' ∷ b't' ∷ b'-'
    ∷ []

abbrev pub http_sec_websocket_key : List ℕ
http_sec_websocket_key =
    b's' ∷ b'e' ∷ b'c' ∷ b'-' ∷ b'w' ∷ b'e' ∷ b'b' ∷ b's' ∷ b'o' ∷ b'c' ∷ b'k' ∷ b'e' ∷ b't' ∷ b'-'
    ∷ b'k' ∷ b'e' ∷ b'y' ∷ []

abbrev pub http_sec_websocket_version : List ℕ
http_sec_websocket_version =
    b's' ∷ b'e' ∷ b'c' ∷ b'-' ∷ b'w' ∷ b'e' ∷ b'b' ∷ b's' ∷ b'o' ∷ b'c' ∷ b'k' ∷ b'e' ∷ b't' ∷ b'-'
    ∷ b'v' ∷ b'e' ∷ b'r' ∷ b's' ∷ b'i' ∷ b'o' ∷ b'n' ∷ []

abbrev pub http_sec_websocket_version13 : List ℕ
http_sec_websocket_version13 = b'1' ∷ b'3' ∷ []

abbrev pub http_sec_websocket_protocol : List ℕ
http_sec_websocket_protocol =
    b's' ∷ b'e' ∷ b'c' ∷ b'-' ∷ b'w' ∷ b'e' ∷ b'b' ∷ b's' ∷ b'o' ∷ b'c' ∷ b'k' ∷ b'e' ∷ b't' ∷ b'-'
    ∷ b'p' ∷ b'r' ∷ b'o' ∷ b't' ∷ b'o' ∷ b'c' ∷ b'o' ∷ b'l' ∷ []

abbrev pub http_sec_websocket_extensions : List ℕ
http_sec_websocket_extensions =
    b's' ∷ b'e' ∷ b'c' ∷ b'-' ∷ b'w' ∷ b'e' ∷ b'b' ∷ b's' ∷ b'o' ∷ b'c' ∷ b'k' ∷ b'e' ∷ b't' ∷ b'-'
    ∷ b'e' ∷ b'x' ∷ b't' ∷ b'e' ∷ b'n' ∷ b's' ∷ b'i' ∷ b'o' ∷ b'n' ∷ b's' ∷ []
