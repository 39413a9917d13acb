-- ===== src/Log/Filter.antt =====
-- Which messages are written, and where.
use zsr.Prelude.{ℕ, ◌<◌, ◌≡◌, ◌⊎◌, Bytes, arith}
use zsr.Log.{LogLevel, log_off, rank, LogConfig, Env, World, returned, print_log}

-- LOG_OFF, or less severe than the configured level.
abbrev pub IsSuppressed : LogConfig → LogLevel → Type 0
IsSuppressed g level = (level ≡ log_off) ⊎ (rank level < rank g.level)

-- A suppressed message leaves every stream as it is.
pub print_log-suppressed :
    (g : LogConfig) (env : Env) (level : LogLevel) (file : Bytes) (line : ℕ) (message : Bytes)
    (w : World)
    → IsSuppressed g level
    → print_log g env level file line message w ≡ returned w
unfolding print_log
print_log-suppressed g env level file line message w h = ground arith
