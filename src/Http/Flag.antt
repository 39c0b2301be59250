-- ===== src/Http/Flag.antt =====
-- `websocket_handshake_flag` of src/protocol/http/http_parser.h.
use jdocs.Base.{ℕ}

abbrev pub host : ℕ
host = 1

abbrev pub connection : ℕ
connection = 2

abbrev pub connection_upgrade : ℕ
connection_upgrade = 4

abbrev pub upgrade : ℕ
upgrade = 8

abbrev pub upgrade_websocket : ℕ
upgrade_websocket = 16

abbrev pub websocket_key : ℕ
websocket_key = 32

abbrev pub websocket_version : ℕ
websocket_version = 64

abbrev pub websocket_version13 : ℕ
websocket_version13 = 128

abbrev pub complete : ℕ
complete = 255
