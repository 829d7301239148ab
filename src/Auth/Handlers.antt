-- ===== src/Auth/Handlers.antt =====
-- auth.c: the entry points, in a build without `WITH_DB`.
use exact.Base.{Bytes, codes, []}
use exact.Os.{Os}
use exact.Outcome.{Outcome, signal, alarm, log_debug, ◌>>=◌, ◌>>◌, pure, emit, logger}
use exact.Conffile.Param.{Conf, conffile_param_int}
use exact.Auth.Table.{Auth, auth_init_mem}
use exact.Auth.Text.{auth_text_add, auth_text_clean, auth_text_dump, auth_write_text}

unfoldable pub auth_add : Os → Conf → Bytes → Bytes → Auth → Outcome Auth
auth_add = auth_text_add

unfoldable pub auth_dump : Os → Conf → Auth → Outcome (Unit {0})
auth_dump = auth_text_dump

-- The handler of the alarm arms the next one.
unfoldable pub auth_clean : Os → Conf → Auth → Outcome Auth
auth_clean os conf a = do
  b ← auth_text_clean os conf a
  emit (signal 14 "auth_clean")
  emit (alarm b.auth_alarm)
  pure b

unfoldable pub auth_init : Os → Conf → Auth → Outcome Auth
auth_init os conf a = do
  logger log_debug "initialising authentication tables\n" []
  b ← auth_init_mem os a
  flush ← conffile_param_int conf (codes "flush")
  let c : Auth = record b { auth_alarm = flush }
  emit (signal 14 "auth_clean")
  emit (alarm c.auth_alarm)
  auth_write_text os conf c.auth
  logger log_debug "authentication tables initialised\n" []
  pure c

-- There is no database to close.
unfoldable pub auth_exit : Outcome (Unit {0})
auth_exit = pure tt
