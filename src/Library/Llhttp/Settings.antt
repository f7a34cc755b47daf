-- ===== src/Library/Llhttp/Settings.antt =====
-- include/llhttp.h: the callbacks. `D` is the type of those that are given data, `C` of the others;
-- `none` is NULL.
use crinha.Prelude.{Option, none}

pub record LlhttpSettings (D C : Type 0) : Type 0 where
  pub on_message_begin : Option C
  pub on_url : Option D
  pub on_status : Option D
  pub on_method : Option D
  pub on_version : Option D
  pub on_header_field : Option D
  pub on_header_value : Option D
  pub on_chunk_extension_name : Option D
  pub on_chunk_extension_value : Option D
  pub on_headers_complete : Option C
  pub on_body : Option D
  pub on_message_complete : Option C
  pub on_url_complete : Option C
  pub on_status_complete : Option C
  pub on_method_complete : Option C
  pub on_version_complete : Option C
  pub on_header_field_complete : Option C
  pub on_header_value_complete : Option C
  pub on_chunk_extension_name_complete : Option C
  pub on_chunk_extension_value_complete : Option C
  pub on_chunk_header : Option C
  pub on_chunk_complete : Option C
  pub on_reset : Option C

-- `llhttp_settings_init`.
abbrev pub no_callbacks : {D C : Type 0} → LlhttpSettings D C
no_callbacks = record {
  on_message_begin = none;
  on_url = none;
  on_status = none;
  on_method = none;
  on_version = none;
  on_header_field = none;
  on_header_value = none;
  on_chunk_extension_name = none;
  on_chunk_extension_value = none;
  on_headers_complete = none;
  on_body = none;
  on_message_complete = none;
  on_url_complete = none;
  on_status_complete = none;
  on_method_complete = none;
  on_version_complete = none;
  on_header_field_complete = none;
  on_header_value_complete = none;
  on_chunk_extension_name_complete = none;
  on_chunk_extension_value_complete = none;
  on_chunk_header = none;
  on_chunk_complete = none;
  on_reset = none;
}
