-- ===== src/Host.antt =====
-- libzsr/load_avg.c, libzsr/time.c and libzsr/who.c: short readers of what the C library answers. The
-- list links are left out.
use zsr.Prelude.{ℕ, Option, none, some, List, [], ◌∷◌, Bytes, get_or, ◌==◌, if◌then◌else◌}
use zsr.Libc.Lines.{fgets}
use zsr.Log.{LogCall, log_error_of}
use zsr.Network.{take}

-- `load_stat_t`, over a type of `float`.
pub record LoadStat (F : Type 0) : Type 0 where
  pub one_min : F
  pub five_min : F
  pub fifteen_min : F

module _ {F : Type 0} (sscanf_f : Bytes → List F) where
  -- The values that `sscanf` converts replace the old ones.
  abbrev load_values : List F → LoadStat F → LoadStat F
  load_values vs load = record {
    one_min = get_or vs 0 load.one_min;
    five_min = get_or vs 1 load.five_min;
    fifteen_min = get_or vs 2 load.fifteen_min;
  }

  -- The first buffer; without one, `buf` is read though nothing was assigned to it.
  abbrev load_line : Option (Bytes × Bytes) → LoadStat F → Option (LoadStat F)
  load_line none load = none
  load_line (some (buf, rest)) load = some (load_values (sscanf_f buf) load)

  -- `sscanf_f` is the conversion of "%f %f %f ": the values that it converts, three at most.
  unfoldable pub read_load_stat : Option Bytes → LoadStat F → Option (LoadStat F) × List LogCall
  read_load_stat none load = (some load, log_error_of "/proc/loadavg" ∷ [])
  read_load_stat (some text) load = (load_line (fgets 128 text) load, [])

-- `get_sys_time`, for what `time(NULL)` answers.
unfoldable pub get_sys_time : ℕ → ℕ
get_sys_time now = now

-- `struct utmp`, as far as it is read. The texts are those up to the first NUL.
pub record Utmp : Type 0 where
  pub ut_type : ℕ
  pub ut_user : Bytes
  pub ut_line : Bytes
  pub ut_host : Bytes
  pub ut_time : ℕ

-- USER_PROCESS.
abbrev pub user_process : ℕ
user_process = 7

-- `login_user_t`.
pub record LoginUser : Type 0 where
  pub user : Bytes
  pub tty : Bytes
  pub from : Bytes
  pub login_time : ℕ

abbrev pub login_user : Utmp → LoginUser
login_user up = record {
  user = take 32 up.ut_user;
  tty = take 32 up.ut_line;
  from = take 256 up.ut_host;
  login_time = up.ut_time;
}

-- For what `getutent` answers until it returns NULL.
unfoldable pub get_login_user : List Utmp → List LoginUser
get_login_user [] = []
get_login_user (up ∷ ups) =
    let rest = get_login_user ups in
    if up.ut_type == user_process then login_user up ∷ rest else rest
