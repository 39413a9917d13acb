-- ===== src/Log.antt =====
-- libzsr/log.c and the types of include/zsr/define.h that it uses: the level filter, the choice of
-- the stream, the file that starts anew when it is full, and the line that is written. The world is
-- the log file (none: it does not exist) and the two standard streams; the time stamp, the process
-- id and whether `fopen` succeeds come from outside. `vfprintf` is taken as done: a call carries its
-- formatted message.
pub mod Filter
pub mod Rotation
use zsr.Prelude.{
  ℕ, Bool, true, false, Option, none, some, List, [], ◌∷◌, ◌++◌, Bytes, String, codes, length, leb,
  ltb, if◌then◌else◌,
}
use zsr.Libc.Print.{print_lu}
use zsr.Libc.Lines.{newline}

pub data LogLevel : Type 0 where
  log_trace log_debug log_info log_warn log_error log_fatal log_off : LogLevel

-- The value of the enumerator.
abbrev pub rank : LogLevel → ℕ
rank log_trace = 0
rank log_debug = 1
rank log_info = 2
rank log_warn = 3
rank log_error = 4
rank log_fatal = 5
rank log_off = 6

pub data LogOutputStream : Type 0 where
  los_file los_stdout los_stderr : LogOutputStream

pub record LogConfig : Type 0 where
  pub level : LogLevel
  pub output_to : LogOutputStream
  pub max_byte : ℕ
  pub path : Bytes

-- `G_LOG_CONFIG` as it is initialised.
abbrev pub default_log_config : LogConfig
default_log_config = record {
  level = log_info;
  output_to = los_stderr;
  max_byte = 104857600;
  path = codes "/var/log/zsr.log";
}

pub record World : Type 0 where
  pub file : Option Bytes
  pub stdout : Bytes
  pub stderr : Bytes

-- What the system answers during one call.
pub record Env : Type 0 where
  pub today : Bytes
  pub pid : ℕ
  pub can_open : Bool

pub data Outcome : Type 0 where
  returned : World → Outcome
  exited : World → Outcome

-- `stat` fails on a file that does not exist.
unfoldable pub get_size_in_byte : Option Bytes → ℕ
get_size_in_byte none = 0
get_size_in_byte (some text) = length text

abbrev pub contents : Option Bytes → Bytes
contents none = []
contents (some text) = text

-- The file's text behind which the call writes: "wb" truncates, "ab+" appends; or no file.
unfoldable pub open_log_file : LogConfig → Env → World → Option Bytes
unfolding get_size_in_byte
open_log_file g env w =
    if env.can_open
    then some (if leb g.max_byte (get_size_in_byte w.file) then [] else contents w.file)
    else none

-- The line of a message: the source position only at the most detailed level.
unfoldable pub log_line : Env → LogLevel → Bytes → ℕ → Bytes → Bytes
log_line env level file line message =
    codes "["
    ++ (env.today
        ++ (codes "] ["
            ++ (print_lu env.pid
                ++ (codes "] "
                    ++ ((if leb (rank level) (rank log_trace)
                          then file ++ (codes ":" ++ (print_lu line ++ codes " "))
                          else [])
                        ++ (message ++ newline ∷ []))))))

cannot_open : LogConfig → World → World
cannot_open g w = record w {
  stderr = w.stderr ++ (codes "cannot open \"" ++ (g.path ++ codes "\": "));
}

write_opened : LogConfig → Option Bytes → Bytes → World → Outcome
write_opened g none text w = exited (cannot_open g w)
write_opened g (some old) text w = returned (record w { file = some (old ++ text) })

-- The stream is chosen, and the line written to it.
write_log : LogConfig → LogOutputStream → Env → Bytes → World → Outcome
write_log g los_stdout env text w = returned (record w { stdout = w.stdout ++ text })
write_log g los_stderr env text w = returned (record w { stderr = w.stderr ++ text })
write_log g los_file env text w = write_opened g (open_log_file g env w) text w

-- `level == LOG_OFF`.
is_off : LogLevel → Bool
is_off log_off = true
is_off _ = false

unfoldable pub print_log : LogConfig → Env → LogLevel → Bytes → ℕ → Bytes → World → Outcome
unfolding is_off write_log write_opened cannot_open open_log_file
print_log g env level file line message w =
    if is_off level
    then returned w
    else if ltb (rank level) (rank g.level)
    then returned w
    else write_log g g.output_to env (log_line env level file line message) w

-- A call of the log that a reader of the library makes: of `print_log_l` with a title, or of `print_log`
-- with a message.
pub data LogCall : Type 0 where
  with_errno : LogLevel → Option Bytes → LogCall
  with_message : LogLevel → Bytes → LogCall

abbrev pub log_error_of : String → LogCall
log_error_of title = with_errno log_error (some (codes title))
