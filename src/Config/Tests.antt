-- ===== src/Config/Tests.antt =====
-- A reading of the settings.
use esppdv.Base.{some, none, str_eq, if◌then◌else◌}
use esppdv.Config.{Env}

abbrev toy_env : Env
toy_env key = if str_eq key "POSTGRES_MAX_CONNS" then some "4294967297" else none
