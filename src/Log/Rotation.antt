-- ===== src/Log/Rotation.antt =====
-- The log file stays within its bound, over any sequence of messages.
use zsr.Log.Filter.{IsSuppressed}
use zsr.Prelude.{
  inl, inr, ◌⊎◌, sym, append-nil, append_assoc, ◌∙◌, ℕ, ◌+◌, ◌≤◌, ◌<◌, ◌≡◌, refl, ◌++◌, Bytes,
  arith, [], ◌∷◌, some, true, List, length, length-append, All,
}
use zsr.Log.{
  LogLevel, LogConfig, los_file, Env, World, get_size_in_byte, returned, exited, print_log,
  log_line, Outcome, contents,
}

-- A call of `print_log` with what the system answers during it.
pub record Message : Type 0 where
  pub env : Env
  pub level : LogLevel
  pub file : Bytes
  pub line : ℕ
  pub text : Bytes

abbrev line_of : Message → Bytes
line_of m = log_line m.env m.level m.file m.line m.text

-- What follows a call that returns.
abbrev pub and_then : Outcome → (World → Outcome) → Outcome
and_then (returned w) k = k w
and_then (exited w) k = exited w

-- The calls of a run, up to the one that ends the process.
unfoldable pub print_all : LogConfig → List Message → World → Outcome
print_all g [] w = returned w
print_all g (m ∷ ms) w =
    and_then (print_log g m.env m.level m.file m.line m.text w) (print_all g ms)

abbrev pub world_of : Outcome → World
world_of (returned w) = w
world_of (exited w) = w

abbrev pub contents_of : Outcome → Bytes
contents_of o = contents (world_of o).file

abbrev pub FileAtMost : ℕ → World → Type 0
FileAtMost n w = get_size_in_byte w.file ≤ n

contents-length : (w : World) → length (contents w.file) ≡ get_size_in_byte w.file
unfolding get_size_in_byte
contents-length w = ground arith

Outcome-cases : (o : Outcome) → ((w : World) × (o ≡ returned w)) ⊎ ((w : World) × (o ≡ exited w))
Outcome-cases (returned w) = inl (w, refl)
Outcome-cases (exited w) = inr (w, refl)

print_log-bound :
    (g : LogConfig) (env : Env) (level : LogLevel) (file : Bytes) (line : ℕ) (text : Bytes)
    (w : World) (n : ℕ)
    → length (log_line env level file line text) ≤ n
    → FileAtMost (g.max_byte + n) w
    → FileAtMost (g.max_byte + n) (world_of (print_log g env level file line text w))
unfolding print_log get_size_in_byte
print_log-bound g env level file line text w n fits h = ground (
  arith,
  contents-length w,
  length-append {0} (contents w.file) (log_line env level file line text),
)

-- If each line is of at most `n` bytes, and the file begins with at most `max_byte + n`, then it never
-- holds more than `max_byte + n`, whatever is logged and whether or not the run ends in a failure to
-- open it.
pub print_all-bound :
    (g : LogConfig) (n : ℕ) (ms : List Message) (w : World)
    → All (λ m. length (line_of m) ≤ n) ms
    → FileAtMost (g.max_byte + n) w
    → FileAtMost (g.max_byte + n) (world_of (print_all g ms w))
unfolding print_all
print_all-bound g n [] w short h = h
print_all-bound g n (m ∷ ms) w (s, short) h =
    elim (Outcome-cases (print_log g m.env m.level m.file m.line m.text w)) [
      | inl (w', e) ↦ rw e (print_all-bound g n ms w' short (rw e at now))
      | inr (w', e) ↦ rw e (rw e at now)
    ]
  where
    now : FileAtMost (g.max_byte + n) (world_of (print_log g m.env m.level m.file m.line m.text w))
    now = print_log-bound g m.env m.level m.file m.line m.text w n s h

-- The lines of a run, one behind the other.
abbrev pub all_lines : List Message → Bytes
all_lines [] = []
all_lines (m ∷ ms) = line_of m ++ all_lines ms

print_log-appends :
    (g : LogConfig) (m : Message) (w : World)
    → g.output_to ≡ los_file
    → ¬ IsSuppressed g m.level
    → m.env.can_open ≡ true
    → get_size_in_byte w.file < g.max_byte
    → print_log g m.env m.level m.file m.line m.text w
      ≡ returned (record w { file = some (contents w.file ++ line_of m) })
unfolding print_log get_size_in_byte
print_log-appends g m w out pass opens room = ground arith

line-pos : (m : Message) → 0 < length (line_of m)
unfolding log_line
line-pos m = omega arith

-- While the file has room, nothing that is logged to it is lost: it holds its old text and then all
-- the lines in their order. The messages pass the filter, and the file can be opened.
pub print_all-keeps :
    (g : LogConfig) (ms : List Message) (w : World)
    → g.output_to ≡ los_file
    → All (λ m. ¬ IsSuppressed g m.level) ms
    → All (λ m. m.env.can_open ≡ true) ms
    → get_size_in_byte w.file + length (all_lines ms) ≤ g.max_byte
    → contents_of (print_all g ms w) ≡ contents w.file ++ all_lines ms
unfolding print_all
print_all-keeps g [] w out pass opens room = sym (append-nil _)
print_all-keeps g (m ∷ ms) w out (p, pass) (o, opens) room =
    rw (print_log-appends g m w out p o (omega (arith, line-pos m, whole))) (
      print_all-keeps g ms after out pass opens
        (omega (arith, whole, next, contents-length w, contents-length after))
      ∙ append_assoc (contents w.file) (line_of m) (all_lines ms))
  where
    after : World
    after = record w { file = some (contents w.file ++ line_of m) }

    whole : length (all_lines (m ∷ ms)) ≡ length (line_of m) + length (all_lines ms)
    whole = length-append (line_of m) (all_lines ms)

    next : length (contents w.file ++ line_of m) ≡ length (contents w.file) + length (line_of m)
    next = length-append (contents w.file) (line_of m)
