-- ===== src/Tests/Logging.antt =====
-- Messages of the log.
use zsr.Prelude.{◌+◌, ◌≡◌, refl, true, some, [], ◌∷◌, ◌++◌, codes, arith}
use zsr.Log.{
  log_warn, LogConfig, default_log_config, los_file, Env, World, get_size_in_byte, log_line,
}
use zsr.Log.Filter.{IsSuppressed}
use zsr.Log.Rotation.{
  Message, print_all, all_lines, world_of, contents_of, FileAtMost, print_all-bound,
  print_all-keeps,
}
use zsr.Libc.Print.{print_lu}

abbrev at_noon : Env
at_noon = record { today = codes "2014-09-30 12:00:00"; pid = 42; can_open = true }

abbrev quiet : World
quiet = record { file = some (codes "old\n"); stdout = []; stderr = [] }

abbrev to_file : LogConfig
to_file = record default_log_config { output_to = los_file }

abbrev warning : Message
warning = record {
  env = at_noon;
  level = log_warn;
  file = codes "io.c";
  line = 64;
  text = codes "Unknown";
}

print_all-bound_example :
    FileAtMost
      (50 + 60)
      (world_of (print_all (record to_file { max_byte = 50 }) (warning ∷ warning ∷ []) quiet))
unfolding log_line print_lu get_size_in_byte
print_all-bound_example =
    print_all-bound (record to_file { max_byte = 50 }) 60 (warning ∷ warning ∷ []) quiet
      (omega arith) (omega arith)

passes : ¬ IsSuppressed to_file log_warn
passes h = ground arith

print_all-keeps_example :
    contents_of (print_all to_file (warning ∷ warning ∷ []) quiet)
    ≡ codes "old\n" ++ all_lines (warning ∷ warning ∷ [])
unfolding log_line print_lu get_size_in_byte
print_all-keeps_example =
    print_all-keeps to_file (warning ∷ warning ∷ []) quiet refl (passes, (passes, tt))
      (refl, (refl, tt)) (omega arith)
