-- ===== src/Util.antt =====
-- util/string_util.c, util/array_list.c and util/env_util.c.
pub mod StringUtil
pub mod ArrayList
pub mod EnvUtil
pub mod UuidUtil
