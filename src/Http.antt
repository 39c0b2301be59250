-- ===== src/Http.antt =====
-- The HTTP handshake parser: src/protocol/http/http_parser.h and src/protocol/http/http_parser.cc.
pub mod Tables
pub mod ErrorCode
pub mod Flag
pub mod State
pub mod RequestLine
pub mod Headers
pub mod Execute
pub mod Safety
pub mod Handshake
