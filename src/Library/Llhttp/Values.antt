-- ===== src/Library/Llhttp/Values.antt =====
-- include/llhttp.h: the enumerations and the tables agree.
use crinha.Prelude.{◌≢◌, none, arith}
use crinha.Library.Table.{text_of}
use crinha.Library.Llhttp.Errno.{LlhttpErrno, errno_value, http_errno_map}
use crinha.Library.Llhttp.Method.{LlhttpMethod, method_value, http_all_method_map}
use crinha.Library.Llhttp.Status.{LlhttpStatus, status_value, http_status_map}

-- Every error code has a text in the table.
pub errno-listed : (e : LlhttpErrno) → text_of (errno_value e) http_errno_map ≢ none
errno-listed e = ground arith

-- So has every method,
pub method-listed : (m : LlhttpMethod) → text_of (method_value m) http_all_method_map ≢ none
method-listed m = ground arith

-- and every status.
pub status-listed : (s : LlhttpStatus) → text_of (status_value s) http_status_map ≢ none
status-listed s = ground arith
