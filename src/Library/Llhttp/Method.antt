-- ===== src/Library/Llhttp/Method.antt =====
-- include/llhttp.h: the methods of requests.
use crinha.Prelude.{ℕ, List, [], ◌∷◌, codes}
use crinha.Library.Table.{Row, row}

pub data LlhttpMethod : Type 0 where
  http_delete http_get http_head http_post http_put http_connect http_options : LlhttpMethod
  http_trace http_copy http_lock http_mkcol http_move http_propfind http_proppatch : LlhttpMethod
  http_search http_unlock http_bind http_rebind http_unbind http_acl http_report : LlhttpMethod
  http_mkactivity http_checkout http_merge http_msearch http_notify http_subscribe : LlhttpMethod
  http_unsubscribe http_patch http_purge http_mkcalendar http_link http_unlink : LlhttpMethod
  http_source http_pri http_describe http_announce http_setup http_play http_pause : LlhttpMethod
  http_teardown http_get_parameter http_set_parameter http_redirect http_record : LlhttpMethod
  http_flush : LlhttpMethod

abbrev pub method_value : LlhttpMethod → ℕ
method_value http_delete = 0
method_value http_get = 1
method_value http_head = 2
method_value http_post = 3
method_value http_put = 4
method_value http_connect = 5
method_value http_options = 6
method_value http_trace = 7
method_value http_copy = 8
method_value http_lock = 9
method_value http_mkcol = 10
method_value http_move = 11
method_value http_propfind = 12
method_value http_proppatch = 13
method_value http_search = 14
method_value http_unlock = 15
method_value http_bind = 16
method_value http_rebind = 17
method_value http_unbind = 18
method_value http_acl = 19
method_value http_report = 20
method_value http_mkactivity = 21
method_value http_checkout = 22
method_value http_merge = 23
method_value http_msearch = 24
method_value http_notify = 25
method_value http_subscribe = 26
method_value http_unsubscribe = 27
method_value http_patch = 28
method_value http_purge = 29
method_value http_mkcalendar = 30
method_value http_link = 31
method_value http_unlink = 32
method_value http_source = 33
method_value http_pri = 34
method_value http_describe = 35
method_value http_announce = 36
method_value http_setup = 37
method_value http_play = 38
method_value http_pause = 39
method_value http_teardown = 40
method_value http_get_parameter = 41
method_value http_set_parameter = 42
method_value http_redirect = 43
method_value http_record = 44
method_value http_flush = 45

-- HTTP_METHOD_MAP
abbrev pub http_method_map : List Row
http_method_map =
    row 0 (codes "DELETE") (codes "DELETE")
    ∷ row 1 (codes "GET") (codes "GET")
    ∷ row 2 (codes "HEAD") (codes "HEAD")
    ∷ row 3 (codes "POST") (codes "POST")
    ∷ row 4 (codes "PUT") (codes "PUT")
    ∷ row 5 (codes "CONNECT") (codes "CONNECT")
    ∷ row 6 (codes "OPTIONS") (codes "OPTIONS")
    ∷ row 7 (codes "TRACE") (codes "TRACE")
    ∷ row 8 (codes "COPY") (codes "COPY")
    ∷ row 9 (codes "LOCK") (codes "LOCK")
    ∷ row 10 (codes "MKCOL") (codes "MKCOL")
    ∷ row 11 (codes "MOVE") (codes "MOVE")
    ∷ row 12 (codes "PROPFIND") (codes "PROPFIND")
    ∷ row 13 (codes "PROPPATCH") (codes "PROPPATCH")
    ∷ row 14 (codes "SEARCH") (codes "SEARCH")
    ∷ row 15 (codes "UNLOCK") (codes "UNLOCK")
    ∷ row 16 (codes "BIND") (codes "BIND")
    ∷ row 17 (codes "REBIND") (codes "REBIND")
    ∷ row 18 (codes "UNBIND") (codes "UNBIND")
    ∷ row 19 (codes "ACL") (codes "ACL")
    ∷ row 20 (codes "REPORT") (codes "REPORT")
    ∷ row 21 (codes "MKACTIVITY") (codes "MKACTIVITY")
    ∷ row 22 (codes "CHECKOUT") (codes "CHECKOUT")
    ∷ row 23 (codes "MERGE") (codes "MERGE")
    ∷ row 24 (codes "MSEARCH") (codes "M-SEARCH")
    ∷ row 25 (codes "NOTIFY") (codes "NOTIFY")
    ∷ row 26 (codes "SUBSCRIBE") (codes "SUBSCRIBE")
    ∷ row 27 (codes "UNSUBSCRIBE") (codes "UNSUBSCRIBE")
    ∷ row 28 (codes "PATCH") (codes "PATCH")
    ∷ row 29 (codes "PURGE") (codes "PURGE")
    ∷ row 30 (codes "MKCALENDAR") (codes "MKCALENDAR")
    ∷ row 31 (codes "LINK") (codes "LINK")
    ∷ row 32 (codes "UNLINK") (codes "UNLINK")
    ∷ row 33 (codes "SOURCE") (codes "SOURCE")
    ∷ []

-- HTTP_ALL_METHOD_MAP
abbrev pub http_all_method_map : List Row
http_all_method_map =
    row 0 (codes "DELETE") (codes "DELETE")
    ∷ row 1 (codes "GET") (codes "GET")
    ∷ row 2 (codes "HEAD") (codes "HEAD")
    ∷ row 3 (codes "POST") (codes "POST")
    ∷ row 4 (codes "PUT") (codes "PUT")
    ∷ row 5 (codes "CONNECT") (codes "CONNECT")
    ∷ row 6 (codes "OPTIONS") (codes "OPTIONS")
    ∷ row 7 (codes "TRACE") (codes "TRACE")
    ∷ row 8 (codes "COPY") (codes "COPY")
    ∷ row 9 (codes "LOCK") (codes "LOCK")
    ∷ row 10 (codes "MKCOL") (codes "MKCOL")
    ∷ row 11 (codes "MOVE") (codes "MOVE")
    ∷ row 12 (codes "PROPFIND") (codes "PROPFIND")
    ∷ row 13 (codes "PROPPATCH") (codes "PROPPATCH")
    ∷ row 14 (codes "SEARCH") (codes "SEARCH")
    ∷ row 15 (codes "UNLOCK") (codes "UNLOCK")
    ∷ row 16 (codes "BIND") (codes "BIND")
    ∷ row 17 (codes "REBIND") (codes "REBIND")
    ∷ row 18 (codes "UNBIND") (codes "UNBIND")
    ∷ row 19 (codes "ACL") (codes "ACL")
    ∷ row 20 (codes "REPORT") (codes "REPORT")
    ∷ row 21 (codes "MKACTIVITY") (codes "MKACTIVITY")
    ∷ row 22 (codes "CHECKOUT") (codes "CHECKOUT")
    ∷ row 23 (codes "MERGE") (codes "MERGE")
    ∷ row 24 (codes "MSEARCH") (codes "M-SEARCH")
    ∷ row 25 (codes "NOTIFY") (codes "NOTIFY")
    ∷ row 26 (codes "SUBSCRIBE") (codes "SUBSCRIBE")
    ∷ row 27 (codes "UNSUBSCRIBE") (codes "UNSUBSCRIBE")
    ∷ row 28 (codes "PATCH") (codes "PATCH")
    ∷ row 29 (codes "PURGE") (codes "PURGE")
    ∷ row 30 (codes "MKCALENDAR") (codes "MKCALENDAR")
    ∷ row 31 (codes "LINK") (codes "LINK")
    ∷ row 32 (codes "UNLINK") (codes "UNLINK")
    ∷ row 33 (codes "SOURCE") (codes "SOURCE")
    ∷ row 34 (codes "PRI") (codes "PRI")
    ∷ row 35 (codes "DESCRIBE") (codes "DESCRIBE")
    ∷ row 36 (codes "ANNOUNCE") (codes "ANNOUNCE")
    ∷ row 37 (codes "SETUP") (codes "SETUP")
    ∷ row 38 (codes "PLAY") (codes "PLAY")
    ∷ row 39 (codes "PAUSE") (codes "PAUSE")
    ∷ row 40 (codes "TEARDOWN") (codes "TEARDOWN")
    ∷ row 41 (codes "GET_PARAMETER") (codes "GET_PARAMETER")
    ∷ row 42 (codes "SET_PARAMETER") (codes "SET_PARAMETER")
    ∷ row 43 (codes "REDIRECT") (codes "REDIRECT")
    ∷ row 44 (codes "RECORD") (codes "RECORD")
    ∷ row 45 (codes "FLUSH") (codes "FLUSH")
    ∷ []
