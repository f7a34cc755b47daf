-- ===== src/Library/Libpq/Status.antt =====
-- include/libpq-fe.h: the states of a connection, and the outcomes of a command.
use crinha.Prelude.{ℕ}

pub data ConnStatusType : Type 0 where
  connection_ok connection_bad connection_started connection_made : ConnStatusType
  connection_awaiting_response connection_auth_ok connection_setenv : ConnStatusType
  connection_ssl_startup connection_needed connection_check_writable : ConnStatusType
  connection_consume connection_gss_startup connection_check_target : ConnStatusType
  connection_check_standby : ConnStatusType

abbrev pub conn_status_value : ConnStatusType → ℕ
conn_status_value connection_ok = 0
conn_status_value connection_bad = 1
conn_status_value connection_started = 2
conn_status_value connection_made = 3
conn_status_value connection_awaiting_response = 4
conn_status_value connection_auth_ok = 5
conn_status_value connection_setenv = 6
conn_status_value connection_ssl_startup = 7
conn_status_value connection_needed = 8
conn_status_value connection_check_writable = 9
conn_status_value connection_consume = 10
conn_status_value connection_gss_startup = 11
conn_status_value connection_check_target = 12
conn_status_value connection_check_standby = 13

pub data ExecStatusType : Type 0 where
  pgres_empty_query pgres_command_ok pgres_tuples_ok pgres_copy_out pgres_copy_in : ExecStatusType
  pgres_bad_response pgres_nonfatal_error pgres_fatal_error pgres_copy_both : ExecStatusType
  pgres_single_tuple pgres_pipeline_sync pgres_pipeline_aborted : ExecStatusType

abbrev pub exec_status_value : ExecStatusType → ℕ
exec_status_value pgres_empty_query = 0
exec_status_value pgres_command_ok = 1
exec_status_value pgres_tuples_ok = 2
exec_status_value pgres_copy_out = 3
exec_status_value pgres_copy_in = 4
exec_status_value pgres_bad_response = 5
exec_status_value pgres_nonfatal_error = 6
exec_status_value pgres_fatal_error = 7
exec_status_value pgres_copy_both = 8
exec_status_value pgres_single_tuple = 9
exec_status_value pgres_pipeline_sync = 10
exec_status_value pgres_pipeline_aborted = 11
