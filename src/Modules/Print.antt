-- ===== src/Modules/Print.antt =====
-- `record_to_str` of the modules that print numbers only: mod_uptime.c, mod_mem.c, mod_swap.c and
-- mod_cpu.c. `none` is the result -1, with the buffer left as it is. The text is the whole one.
pub mod Fields
use zsr.Prelude.{ℕ, Option, none, some, List, [], ◌∷◌, ◌++◌, Bytes, String, codes, get_last?}
use zsr.Libc.Print.{print_lu}
use zsr.Double.{Double}
use zsr.Uptime.{Uptime}
use zsr.Meminfo.{MemStat, SwapStat}
use zsr.Cpu.{Cpu}

-- `%lu` values with commas in between.
abbrev pub comma_list : List ℕ → Bytes
comma_list [] = []
comma_list (n ∷ []) = print_lu n
comma_list (n ∷ m ∷ ns) = print_lu n ++ (codes "," ++ comma_list (m ∷ ns))

abbrev pub record_line : String → Bytes → Bytes
record_line name values = codes name ++ (codes "=" ++ (values ++ codes ";\n"))

-- The values of an entry, in the order of the format string.
abbrev pub uptime_values : Uptime → List ℕ
uptime_values up = up.total_sec ∷ up.year ∷ up.month ∷ up.day ∷ up.hour ∷ up.minute ∷ []

abbrev pub mem_values : MemStat → List ℕ
mem_values m = m.total_kb ∷ m.used_kb ∷ m.free_kb ∷ []

abbrev pub swap_values : SwapStat → List ℕ
swap_values s = s.total_kb ∷ s.used_kb ∷ s.free_kb ∷ []

abbrev pub of_last : {A : Type 0} → (A → Bytes) → Option A → Option Bytes
of_last str none = none
of_last str (some entry) = some (str entry)

unfoldable pub uptime_to_str : List Uptime → Option Bytes
uptime_to_str entries =
    of_last (λ up. record_line "uptime" (comma_list (uptime_values up))) (get_last? entries)

unfoldable pub mem_to_str : List MemStat → Option Bytes
mem_to_str entries =
    of_last (λ m. record_line "mem" (comma_list (mem_values m))) (get_last? entries)

unfoldable pub swap_to_str : List SwapStat → Option Bytes
swap_to_str entries =
    of_last (λ s. record_line "swap" (comma_list (swap_values s))) (get_last? entries)

module _ (D : Double) where
  open D use {F, print_2f}

  unfoldable pub cpu_to_str : List (Cpu F) → Option Bytes
  cpu_to_str entries =
      of_last
        (λ c.
          record_line "cpu"
            (print_2f c.idle ++ (codes "," ++ (print_2f c.util ++ (codes "," ++ print_2f c.wa)))))
        (get_last? entries)
