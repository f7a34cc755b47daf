-- ===== src/Library/Llhttp/Errno.antt =====
-- include/llhttp.h: the error codes.
use crinha.Prelude.{ℕ, List, [], ◌∷◌, codes}
use crinha.Library.Table.{Row, row}

pub data LlhttpErrno : Type 0 where
  hpe_ok hpe_internal hpe_strict hpe_cr_expected hpe_lf_expected : LlhttpErrno
  hpe_unexpected_content_length hpe_unexpected_space hpe_closed_connection : LlhttpErrno
  hpe_invalid_method hpe_invalid_url hpe_invalid_constant hpe_invalid_version : LlhttpErrno
  hpe_invalid_header_token hpe_invalid_content_length hpe_invalid_chunk_size : LlhttpErrno
  hpe_invalid_status hpe_invalid_eof_state hpe_invalid_transfer_encoding : LlhttpErrno
  hpe_cb_message_begin hpe_cb_headers_complete hpe_cb_message_complete : LlhttpErrno
  hpe_cb_chunk_header hpe_cb_chunk_complete hpe_paused hpe_paused_upgrade : LlhttpErrno
  hpe_paused_h2_upgrade hpe_user hpe_cb_url_complete hpe_cb_status_complete : LlhttpErrno
  hpe_cb_method_complete hpe_cb_version_complete hpe_cb_header_field_complete : LlhttpErrno
  hpe_cb_header_value_complete hpe_cb_chunk_extension_name_complete : LlhttpErrno
  hpe_cb_chunk_extension_value_complete hpe_cb_reset : LlhttpErrno

abbrev pub errno_value : LlhttpErrno → ℕ
errno_value hpe_ok = 0
errno_value hpe_internal = 1
errno_value hpe_strict = 2
errno_value hpe_cr_expected = 25
errno_value hpe_lf_expected = 3
errno_value hpe_unexpected_content_length = 4
errno_value hpe_unexpected_space = 30
errno_value hpe_closed_connection = 5
errno_value hpe_invalid_method = 6
errno_value hpe_invalid_url = 7
errno_value hpe_invalid_constant = 8
errno_value hpe_invalid_version = 9
errno_value hpe_invalid_header_token = 10
errno_value hpe_invalid_content_length = 11
errno_value hpe_invalid_chunk_size = 12
errno_value hpe_invalid_status = 13
errno_value hpe_invalid_eof_state = 14
errno_value hpe_invalid_transfer_encoding = 15
errno_value hpe_cb_message_begin = 16
errno_value hpe_cb_headers_complete = 17
errno_value hpe_cb_message_complete = 18
errno_value hpe_cb_chunk_header = 19
errno_value hpe_cb_chunk_complete = 20
errno_value hpe_paused = 21
errno_value hpe_paused_upgrade = 22
errno_value hpe_paused_h2_upgrade = 23
errno_value hpe_user = 24
errno_value hpe_cb_url_complete = 26
errno_value hpe_cb_status_complete = 27
errno_value hpe_cb_method_complete = 32
errno_value hpe_cb_version_complete = 33
errno_value hpe_cb_header_field_complete = 28
errno_value hpe_cb_header_value_complete = 29
errno_value hpe_cb_chunk_extension_name_complete = 34
errno_value hpe_cb_chunk_extension_value_complete = 35
errno_value hpe_cb_reset = 31

-- HTTP_ERRNO_MAP
abbrev pub http_errno_map : List Row
http_errno_map =
    row 0 (codes "OK") (codes "OK")
    ∷ row 1 (codes "INTERNAL") (codes "INTERNAL")
    ∷ row 2 (codes "STRICT") (codes "STRICT")
    ∷ row 25 (codes "CR_EXPECTED") (codes "CR_EXPECTED")
    ∷ row 3 (codes "LF_EXPECTED") (codes "LF_EXPECTED")
    ∷ row 4 (codes "UNEXPECTED_CONTENT_LENGTH") (codes "UNEXPECTED_CONTENT_LENGTH")
    ∷ row 30 (codes "UNEXPECTED_SPACE") (codes "UNEXPECTED_SPACE")
    ∷ row 5 (codes "CLOSED_CONNECTION") (codes "CLOSED_CONNECTION")
    ∷ row 6 (codes "INVALID_METHOD") (codes "INVALID_METHOD")
    ∷ row 7 (codes "INVALID_URL") (codes "INVALID_URL")
    ∷ row 8 (codes "INVALID_CONSTANT") (codes "INVALID_CONSTANT")
    ∷ row 9 (codes "INVALID_VERSION") (codes "INVALID_VERSION")
    ∷ row 10 (codes "INVALID_HEADER_TOKEN") (codes "INVALID_HEADER_TOKEN")
    ∷ row 11 (codes "INVALID_CONTENT_LENGTH") (codes "INVALID_CONTENT_LENGTH")
    ∷ row 12 (codes "INVALID_CHUNK_SIZE") (codes "INVALID_CHUNK_SIZE")
    ∷ row 13 (codes "INVALID_STATUS") (codes "INVALID_STATUS")
    ∷ row 14 (codes "INVALID_EOF_STATE") (codes "INVALID_EOF_STATE")
    ∷ row 15 (codes "INVALID_TRANSFER_ENCODING") (codes "INVALID_TRANSFER_ENCODING")
    ∷ row 16 (codes "CB_MESSAGE_BEGIN") (codes "CB_MESSAGE_BEGIN")
    ∷ row 17 (codes "CB_HEADERS_COMPLETE") (codes "CB_HEADERS_COMPLETE")
    ∷ row 18 (codes "CB_MESSAGE_COMPLETE") (codes "CB_MESSAGE_COMPLETE")
    ∷ row 19 (codes "CB_CHUNK_HEADER") (codes "CB_CHUNK_HEADER")
    ∷ row 20 (codes "CB_CHUNK_COMPLETE") (codes "CB_CHUNK_COMPLETE")
    ∷ row 21 (codes "PAUSED") (codes "PAUSED")
    ∷ row 22 (codes "PAUSED_UPGRADE") (codes "PAUSED_UPGRADE")
    ∷ row 23 (codes "PAUSED_H2_UPGRADE") (codes "PAUSED_H2_UPGRADE")
    ∷ row 24 (codes "USER") (codes "USER")
    ∷ row 26 (codes "CB_URL_COMPLETE") (codes "CB_URL_COMPLETE")
    ∷ row 27 (codes "CB_STATUS_COMPLETE") (codes "CB_STATUS_COMPLETE")
    ∷ row 32 (codes "CB_METHOD_COMPLETE") (codes "CB_METHOD_COMPLETE")
    ∷ row 33 (codes "CB_VERSION_COMPLETE") (codes "CB_VERSION_COMPLETE")
    ∷ row 28 (codes "CB_HEADER_FIELD_COMPLETE") (codes "CB_HEADER_FIELD_COMPLETE")
    ∷ row 29 (codes "CB_HEADER_VALUE_COMPLETE") (codes "CB_HEADER_VALUE_COMPLETE")
    ∷ row 34 (codes "CB_CHUNK_EXTENSION_NAME_COMPLETE") (codes "CB_CHUNK_EXTENSION_NAME_COMPLETE")
    ∷ row 35 (codes "CB_CHUNK_EXTENSION_VALUE_COMPLETE") (codes "CB_CHUNK_EXTENSION_VALUE_COMPLETE")
    ∷ row 31 (codes "CB_RESET") (codes "CB_RESET")
    ∷ []
