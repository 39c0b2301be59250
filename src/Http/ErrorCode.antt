-- ===== src/Http/ErrorCode.antt =====
-- `error_code_t` of src/protocol/http/http_parser.h.
use jdocs.Base.{ℕ}

abbrev pub invalid_method : ℕ
invalid_method = 1

abbrev pub invalid_uri : ℕ
invalid_uri = 2

abbrev pub invalid_header_field : ℕ
invalid_header_field = 3

abbrev pub invalid_field_value : ℕ
invalid_field_value = 4

abbrev pub not_found_required_field : ℕ
not_found_required_field = 5

abbrev pub protocol_error : ℕ
protocol_error = 6

abbrev pub field_out_of_range : ℕ
field_out_of_range = 7
